-- ===== src/Platform.antt =====
-- The arithmetic of `double` and `float`, the clock, and how numbers are printed: what the code
-- takes from C++ and its standard library and the model does not compute.
use Prim.Native.String.{String}
use cache_flow.Base.{ℕ, Bool, if◌then◌else◌}
use cache_flow.Base.Int.{ℤ}

-- `count` converts a size, and `to_size` back; `half` is 0.5, `tiny` is 1e-6, `huge` and
-- `minus_huge` are 1e30 and -1e30, `least` is -FLT_MAX and `epsilon` 1e-8. `elapsed end start` is
-- the milliseconds between two times of the clock, in ticks, and `elapsed_us` prints the
-- microseconds. `fixed` prints with `std::fixed` and two digits in ten columns, and `plain` as a
-- stream does by itself.
pub record Platform : Type 1 where
  pub Double : Type 0
  pub nought : Double
  pub half : Double
  pub tiny : Double
  pub huge : Double
  pub minus_huge : Double
  pub least : Double
  pub epsilon : Double
  pub count : ℕ → Double
  pub to_size : Double → ℕ
  pub plus : Double → Double → Double
  pub minus : Double → Double → Double
  pub times : Double → Double → Double
  pub over : Double → Double → Double
  pub root : Double → Double
  pub exp : Double → Double
  pub less : Double → Double → Bool
  pub at_most : Double → Double → Bool
  pub elapsed : ℕ → ℕ → Double
  pub elapsed_us : ℕ → ℕ → String
  pub duration_us : Double → String
  pub int_to_string : ℤ → String
  pub size_to_string : ℕ → String
  pub double_to_string : Double → String
  pub plain : Double → String
  pub fixed : Double → String
  pub padded : ℕ → String

module _ (platform : Platform) where
  open platform use {Double, less}

  -- `std::min` and `std::max`.
  abbrev pub min : Double → Double → Double
  min a b = if less b a then b else a

  abbrev pub max : Double → Double → Double
  max a b = if less a b then b else a
