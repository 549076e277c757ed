-- ===== src/Float64.antt =====
-- Go's float64, as far as the program compares values. The doubles that are no NaN are ordered as
-- the integers of their bit patterns with the sign applied (both zeros at 0): `num r` is the value of that
-- rank. Arithmetic on them rounds, and is a parameter where it is used.
use keypooler.Base.{Bool, false, if◌then◌else◌}
use keypooler.Base.Int.{ℤ, pos, ltb_ℤ, leb_ℤ}

pub data Float64 : Type 0 where
  nan : Float64
  num : ℤ → Float64

abbrev pub zero_f : Float64
zero_f = num (pos 0)

-- `a < b` and `a <= b`, false at a NaN.
unfoldable pub flt : Float64 → Float64 → Bool
flt nan b = false
flt (num a) nan = false
flt (num a) (num b) = ltb_ℤ a b

unfoldable pub fle : Float64 → Float64 → Bool
fle nan b = false
fle (num a) nan = false
fle (num a) (num b) = leb_ℤ a b

-- The builtin `max`: a NaN if either argument is.
unfoldable pub fmax : Float64 → Float64 → Float64
fmax nan b = nan
fmax (num a) nan = nan
fmax (num a) (num b) = if leb_ℤ a b then num b else num a
