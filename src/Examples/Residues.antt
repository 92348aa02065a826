-- ===== src/Examples/Residues.antt =====
-- The remainders of the division by 3, as numbers without rounding: -FLT_MAX and 0 are both the
-- remainder 0, and the exponential of a difference is 1 for equal scores and 2 for others.
use cache_flow.Base.{ℕ, zero, suc, ◌≡◌, refl, Bool, true, false}
use cache_flow.Platform.{Platform, max}
use cache_flow.Attention.Online.{IsExact}
use cache_flow.Examples.Profiling.{whole}

pub data Residue : Type 0 where
  z : Residue
  o : Residue
  t : Residue

-- One more.
abbrev pub next : Residue → Residue
next z = o
next o = t
next t = z

abbrev pub residue : ℕ → Residue
residue zero = z
residue (suc n) = next (residue n)

abbrev add : Residue → Residue → Residue
add z z = z
add z o = o
add z t = t
add o z = o
add o o = t
add o t = z
add t z = t
add t o = z
add t t = o

abbrev mul : Residue → Residue → Residue
mul z z = z
mul z o = z
mul z t = z
mul o z = z
mul o o = o
mul o t = t
mul t z = z
mul t o = t
mul t t = o

abbrev ratio : Residue → Residue → Residue
ratio z z = z
ratio z o = z
ratio z t = z
ratio o z = t
ratio o o = o
ratio o t = t
ratio t z = t
ratio t o = t
ratio t t = o

abbrev below_test : Residue → Residue → Bool
below_test z z = false
below_test z o = true
below_test z t = true
below_test o z = false
below_test o o = false
below_test o t = true
below_test t z = false
below_test t o = false
below_test t t = false

abbrev pub residues : Platform
residues = record {
  Double = Residue;
  nought = z;
  half = o;
  tiny = o;
  huge = t;
  minus_huge = z;
  least = z;
  epsilon = z;
  count = residue;
  to_size = λ a. 0;
  plus = add;
  minus = ratio;
  times = mul;
  over = mul;
  root = λ a. a;
  exp = λ a. a;
  less = below_test;
  at_most = below_test;
  elapsed = λ a b. z;
  elapsed_us = whole.elapsed_us;
  duration_us = λ a. whole.duration_us 0;
  int_to_string = whole.int_to_string;
  size_to_string = whole.size_to_string;
  double_to_string = λ a. whole.double_to_string 0;
  plain = λ a. whole.plain 0;
  fixed = λ a. whole.fixed 0;
  padded = whole.padded;
}

add_assoc : (a b c : Residue) → add (add a b) c ≡ add a (add b c)
add_assoc z z z = refl
add_assoc z z o = refl
add_assoc z z t = refl
add_assoc z o z = refl
add_assoc z o o = refl
add_assoc z o t = refl
add_assoc z t z = refl
add_assoc z t o = refl
add_assoc z t t = refl
add_assoc o z z = refl
add_assoc o z o = refl
add_assoc o z t = refl
add_assoc o o z = refl
add_assoc o o o = refl
add_assoc o o t = refl
add_assoc o t z = refl
add_assoc o t o = refl
add_assoc o t t = refl
add_assoc t z z = refl
add_assoc t z o = refl
add_assoc t z t = refl
add_assoc t o z = refl
add_assoc t o o = refl
add_assoc t o t = refl
add_assoc t t z = refl
add_assoc t t o = refl
add_assoc t t t = refl

add_comm : (a b : Residue) → add a b ≡ add b a
add_comm z z = refl
add_comm z o = refl
add_comm z t = refl
add_comm o z = refl
add_comm o o = refl
add_comm o t = refl
add_comm t z = refl
add_comm t o = refl
add_comm t t = refl

add_left : (a : Residue) → add z a ≡ a
add_left z = refl
add_left o = refl
add_left t = refl

max_assoc :
    (a b c : Residue) → max residues (max residues a b) c ≡ max residues a (max residues b c)
max_assoc z z z = refl
max_assoc z z o = refl
max_assoc z z t = refl
max_assoc z o z = refl
max_assoc z o o = refl
max_assoc z o t = refl
max_assoc z t z = refl
max_assoc z t o = refl
max_assoc z t t = refl
max_assoc o z z = refl
max_assoc o z o = refl
max_assoc o z t = refl
max_assoc o o z = refl
max_assoc o o o = refl
max_assoc o o t = refl
max_assoc o t z = refl
max_assoc o t o = refl
max_assoc o t t = refl
max_assoc t z z = refl
max_assoc t z o = refl
max_assoc t z t = refl
max_assoc t o z = refl
max_assoc t o o = refl
max_assoc t o t = refl
max_assoc t t z = refl
max_assoc t t o = refl
max_assoc t t t = refl

max_comm : (a b : Residue) → max residues a b ≡ max residues b a
max_comm z z = refl
max_comm z o = refl
max_comm z t = refl
max_comm o z = refl
max_comm o o = refl
max_comm o t = refl
max_comm t z = refl
max_comm t o = refl
max_comm t t = refl

max_left : (a : Residue) → max residues z a ≡ a
max_left z = refl
max_left o = refl
max_left t = refl

mul_assoc : (a b c : Residue) → mul (mul a b) c ≡ mul a (mul b c)
mul_assoc z z z = refl
mul_assoc z z o = refl
mul_assoc z z t = refl
mul_assoc z o z = refl
mul_assoc z o o = refl
mul_assoc z o t = refl
mul_assoc z t z = refl
mul_assoc z t o = refl
mul_assoc z t t = refl
mul_assoc o z z = refl
mul_assoc o z o = refl
mul_assoc o z t = refl
mul_assoc o o z = refl
mul_assoc o o o = refl
mul_assoc o o t = refl
mul_assoc o t z = refl
mul_assoc o t o = refl
mul_assoc o t t = refl
mul_assoc t z z = refl
mul_assoc t z o = refl
mul_assoc t z t = refl
mul_assoc t o z = refl
mul_assoc t o o = refl
mul_assoc t o t = refl
mul_assoc t t z = refl
mul_assoc t t o = refl
mul_assoc t t t = refl

mul_comm : (a b : Residue) → mul a b ≡ mul b a
mul_comm z z = refl
mul_comm z o = refl
mul_comm z t = refl
mul_comm o z = refl
mul_comm o o = refl
mul_comm o t = refl
mul_comm t z = refl
mul_comm t o = refl
mul_comm t t = refl

spread_lem : (a b c : Residue) → mul (add a b) c ≡ add (mul a c) (mul b c)
spread_lem z z z = refl
spread_lem z z o = refl
spread_lem z z t = refl
spread_lem z o z = refl
spread_lem z o o = refl
spread_lem z o t = refl
spread_lem z t z = refl
spread_lem z t o = refl
spread_lem z t t = refl
spread_lem o z z = refl
spread_lem o z o = refl
spread_lem o z t = refl
spread_lem o o z = refl
spread_lem o o o = refl
spread_lem o o t = refl
spread_lem o t z = refl
spread_lem o t o = refl
spread_lem o t t = refl
spread_lem t z z = refl
spread_lem t z o = refl
spread_lem t z t = refl
spread_lem t o z = refl
spread_lem t o o = refl
spread_lem t o t = refl
spread_lem t t z = refl
spread_lem t t o = refl
spread_lem t t t = refl

vanish_lem : (a : Residue) → mul z a ≡ z
vanish_lem z = refl
vanish_lem o = refl
vanish_lem t = refl

chain_lem :
    (a b c : Residue) → ¬ (a ≡ z) → ¬ (b ≡ z) → ¬ (c ≡ z) → mul (ratio a b) (ratio b c) ≡ ratio a c
chain_lem z z z ha hb hc = absurd (ha refl)
chain_lem z z o ha hb hc = absurd (ha refl)
chain_lem z z t ha hb hc = absurd (ha refl)
chain_lem z o z ha hb hc = absurd (ha refl)
chain_lem z o o ha hb hc = absurd (ha refl)
chain_lem z o t ha hb hc = absurd (ha refl)
chain_lem z t z ha hb hc = absurd (ha refl)
chain_lem z t o ha hb hc = absurd (ha refl)
chain_lem z t t ha hb hc = absurd (ha refl)
chain_lem o z z ha hb hc = absurd (hb refl)
chain_lem o z o ha hb hc = absurd (hb refl)
chain_lem o z t ha hb hc = absurd (hb refl)
chain_lem o o z ha hb hc = absurd (hc refl)
chain_lem o o o ha hb hc = refl
chain_lem o o t ha hb hc = refl
chain_lem o t z ha hb hc = absurd (hc refl)
chain_lem o t o ha hb hc = refl
chain_lem o t t ha hb hc = refl
chain_lem t z z ha hb hc = absurd (hb refl)
chain_lem t z o ha hb hc = absurd (hb refl)
chain_lem t z t ha hb hc = absurd (hb refl)
chain_lem t o z ha hb hc = absurd (hc refl)
chain_lem t o o ha hb hc = refl
chain_lem t o t ha hb hc = refl
chain_lem t t z ha hb hc = absurd (hc refl)
chain_lem t t o ha hb hc = refl
chain_lem t t t ha hb hc = refl

same_lem : (a b : Residue) → ¬ (b ≡ z) → mul a (ratio b b) ≡ a
same_lem z z h = absurd (h refl)
same_lem z o h = refl
same_lem z t h = refl
same_lem o z h = absurd (h refl)
same_lem o o h = refl
same_lem o t h = refl
same_lem t z h = absurd (h refl)
same_lem t o h = refl
same_lem t t h = refl

pub exact : IsExact residues
exact = record {
  sums = record { assoc = add_assoc; comm = add_comm; left = add_left };
  maxima = record { assoc = max_assoc; comm = max_comm; left = max_left };
  assoc = mul_assoc;
  comm = mul_comm;
  spread = spread_lem;
  vanish = vanish_lem;
  chain = chain_lem;
  same = same_lem;
}
