-- ===== src/Kernels/Moves.antt =====
-- The assignments `dst[i] = src[j]` that the kernels make, between two arrays and within one.
use mathlib.Core.List.{Memᴰ, Permᴰ}
use mathlib.Core.List.Memᴰ
use cache_flow.Base.{
  ℕ, ◌≡◌, ◌≢◌, ◌⊎◌, inl, inr, refl, sym, ap, ◌∙◌, false, if◌then◌else◌, ◌==◌, ==-eq, ==_refl, List,
  [], ◌∷◌, Bool-cases,
}

-- The element `src` of the one array goes to the element `dst` of the other.
pub record Move : Type 0 where
  pub dst : ℕ
  pub src : ℕ

still_to_come {ℓ} :
    (mv : Move) (ms : List Move) (a : ℕ) (P : Type ℓ)
    → (a == mv.dst) ≡ false
    → P ⊎ ((due : Move) × Memᴰ due (mv ∷ ms) × (due.dst ≡ a))
    → P ⊎ ((due : Move) × Memᴰ due ms × (due.dst ≡ a))
still_to_come mv ms a P e (inl p) = inl p
still_to_come mv ms a P e (inr (due, i, d)) = elim (Memᴰ.cases_cons i) [
  | inl same ↦ absurd (cc (e, ==_refl a, ap (λ (x : Move). x.dst) same, d))
  | inr later ↦ inr (due, later, d)
]

-- The moves of a run stay those of the launch in another order.
pub mem-run : {ms ns : List Move} {mv : Move} → Permᴰ ms ns → Memᴰ mv ms → Memᴰ mv ns
mem-run (Permᴰ.nil) i = i
mem-run (Permᴰ.cons e p) (Memᴰ.head at) = Memᴰ.head (at ∙ e)
mem-run (Permᴰ.cons e p) (Memᴰ.tail i) = Memᴰ.tail (mem-run p i)
mem-run (Permᴰ.swap e d) (Memᴰ.head at) = Memᴰ.tail (Memᴰ.head (at ∙ e))
mem-run (Permᴰ.swap e d) (Memᴰ.tail (Memᴰ.head at)) = Memᴰ.head (at ∙ d)
mem-run (Permᴰ.swap e d) (Memᴰ.tail (Memᴰ.tail i)) = Memᴰ.tail (Memᴰ.tail i)
mem-run (Permᴰ.trans p q) i = mem-run q (mem-run p i)

-- No move reads what a move writes.
abbrev pub IsApart : List Move → Type 0
IsApart ms = (writer reader : Move) → Memᴰ writer ms → Memᴰ reader ms → writer.dst ≢ reader.src

module _ {ℓ} {A : Type ℓ} where
  abbrev pub put : ℕ → A → (ℕ → A) → ℕ → A
  put i v m a = if a == i then v else m a

  unfoldable pub copy_from : List Move → (ℕ → A) → (ℕ → A) → ℕ → A
  copy_from [] s m = m
  copy_from (mv ∷ ms) s m = copy_from ms s (put mv.dst (s mv.src) m)

  unfoldable pub copy_within : List Move → (ℕ → A) → ℕ → A
  copy_within [] m = m
  copy_within (mv ∷ ms) m = copy_within ms (put mv.dst (m mv.src) m)

  put_self : (i : ℕ) (v : A) (m : ℕ → A) → put i v m i ≡ v
  put_self i v m = rw (==_refl i)

  put_ne : (i a : ℕ) (v : A) (m : ℕ → A) → i ≢ a → put i v m a ≡ m a
  put_ne i a v m h = elim (Bool-cases (a == i)) [
    | inl e ↦ absurd (h (sym (==-eq a i e)))
    | inr e ↦ rw e
  ]

  -- An element to which nothing goes is left as it is.
  pub copy_from-ne :
      (ms : List Move) (s m : ℕ → A) (a : ℕ)
      → ((mv : Move) → Memᴰ mv ms → mv.dst ≢ a)
      → copy_from ms s m a ≡ m a
  unfolding copy_from
  copy_from-ne [] s m a h = refl
  copy_from-ne (mv ∷ ms) s m a h =
      copy_from-ne ms s (put mv.dst (s mv.src) m) a (λ mv' i. h mv' (Memᴰ.tail i))
      ∙ put_ne mv.dst a (s mv.src) m (h mv (Memᴰ.head refl))

  -- An element that holds `v`, or gets it, and gets nothing else, holds `v` at the end.
  pub settled :
      (ms : List Move) (s m : ℕ → A) (a : ℕ) (v : A)
      → ((mv : Move) → Memᴰ mv ms → mv.dst ≡ a → s mv.src ≡ v)
      → (m a ≡ v) ⊎ ((mv : Move) × Memᴰ mv ms × (mv.dst ≡ a))
      → copy_from ms s m a ≡ v
  unfolding copy_from
  settled [] s m a v only (inl e) = e
  settled [] s m a v only (inr (mv, i, e)) = absurd (Memᴰ.not-nil i)
  settled (mv ∷ ms) s m a v only start = elim (Bool-cases (a == mv.dst)) [
    | inl e ↦
        let now : put mv.dst (s mv.src) m a ≡ v =
          rw e (only mv (Memᴰ.head refl) (sym (==-eq a mv.dst e))) in
        settled ms s (put mv.dst (s mv.src) m) a v (λ mv' i. only mv' (Memᴰ.tail i)) (inl now)
    | inr e ↦
        settled ms s (put mv.dst (s mv.src) m) a v (λ mv' i. only mv' (Memᴰ.tail i))
          (still_to_come mv ms a (put mv.dst (s mv.src) m a ≡ v) e
            (elim start [ inl old ↦ inl (rw e old) | inr due ↦ inr due ]))
  ]

  -- Within one array such moves read what was there at first.
  pub copy_within-eq :
      (ms : List Move) (s m : ℕ → A) (a : ℕ)
      → IsApart ms
      → ((mv : Move) → Memᴰ mv ms → s mv.src ≡ m mv.src)
      → copy_within ms m a ≡ copy_from ms s m a
  unfolding copy_within copy_from
  copy_within-eq [] s m a apart old = refl
  copy_within-eq (mv ∷ ms) s m a apart old =
      let m' = put mv.dst (m mv.src) m in
      copy_within-eq ms s m' a (λ w r i j. apart w r (Memᴰ.tail i) (Memᴰ.tail j))
        (λ r j.
          old r (Memᴰ.tail j)
          ∙ sym (put_ne mv.dst r.src (m mv.src) m (apart mv r (Memᴰ.head refl) (Memᴰ.tail j))))
      ∙ ap (λ (v : A). copy_from ms s (put mv.dst v m) a) (sym (old mv (Memᴰ.head refl)))
