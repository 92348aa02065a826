-- ===== src/Kernels/Owner.antt =====
-- Which of the first `n` items of a launch has a label.
use cache_flow.Base.{
  ℕ, ◌+◌, ◌*◌, ◌/◌, ◌%◌, ◌<◌, zero, suc, ◌==◌, ==-eq, ==_refl, Bool-cases, Option, none, some, inl,
  inr, ◌≡◌, ◌≢◌, sym, ap, ◌∙◌, if◌then◌else◌, arith,
}

-- No two of the items have the same label.
abbrev pub IsDistinct : ℕ → (ℕ → ℕ) → Type 0
IsDistinct n label = (i j : ℕ) → i < n → j < n → label i ≡ label j → i ≡ j

-- The last item with a label: a token with a wanted, or a pair with a destination.
unfoldable pub owner : (n : ℕ) (label : ℕ → ℕ) (wanted : ℕ) → Option ℕ
owner zero label wanted = none
owner (suc n) label wanted = if label n == wanted then some n else owner n label wanted

pub owner-some :
    (n : ℕ) (m : ℕ → ℕ) (wanted t : ℕ) → owner n m wanted ≡ some t → (t < n) × (m t ≡ wanted)
unfolding owner
owner-some zero m wanted t e = absurd (cc (e))
owner-some (suc n) m wanted t e = elim (Bool-cases (m n == wanted)) [
  | inl h ↦
      let here : n ≡ t = cc (h, e) in (omega (arith, here), ap m (sym here) ∙ ==-eq (m n) wanted h)
  | inr h ↦
      let (l, at) = owner-some n m wanted t (sym (rw (h, owner)) ∙ e) in (omega (arith, l), at)
]

pub owner-none : (n : ℕ) (m : ℕ → ℕ) (wanted t : ℕ) → owner n m wanted ≡ none → t < n → m t ≢ wanted
unfolding owner
owner-none zero m wanted t e l at = absurd (omega (arith, l))
owner-none (suc n) m wanted t e l at = elim (Bool-cases (m n == wanted)) [
  | inl h ↦ absurd (cc (h, e))
  | inr h ↦ elim (Bool-cases (t == n)) [
    | inl last ↦ absurd (cc (h, ==_refl wanted, ap m (sym (==-eq t n last)) ∙ at))
    | inr before ↦ owner-none n m wanted t (sym (rw (h, owner)) ∙ e) (ground arith) at
  ]
]

pub whole : (n x : ℕ) → (x / n) * n + x % n ≡ x
whole n x = grind arith
