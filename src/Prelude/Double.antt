-- ===== src/Prelude/Double.antt =====
-- What the code does with a `double`: constants (`largest` is `numeric_limits<double>::max()`, `mps_infinity` is 1e30), arithmetic and comparisons, as a parameter. The
-- laws are those of IEEE 754 comparison; no law of the rounded arithmetic is assumed.
use sih.Prelude.{zero, suc, ◌≡◌, Bool, true, false, not, ◌&&◌, ◌||◌, ◌⊎◌, arith, if◌then◌else◌}
use sih.Prelude.Int.{ℤ, pos, negsuc, ◌+ℤ◌, ◌-ℤ◌, ◌*ℤ◌, leb_ℤ, ltb_ℤ}

pub record Double {ℓ} (D : Type ℓ) : Type ℓ where
  pub nought : D
  pub one : D
  pub largest : D
  pub infinity : D
  pub mps_infinity : D
  pub add : D → D → D
  pub mul : D → D → D
  pub neg : D → D
  pub abs : D → D
  pub le : D → D → Bool
  pub lt : D → D → Bool

-- `x <= y` holds.
infix 4 ◌≼◌
abbrev pub ◌≼◌ {ℓ} : {D : Type ℓ} ⦃d : Double D⦄ → D → D → Type 0
◌≼◌ ⦃d⦄ x y = d.le x y ≡ true

-- Not a NaN: the values that are `<=` themselves.
abbrev pub IsNumber {ℓ} : {D : Type ℓ} ⦃d : Double D⦄ → D → Type 0
IsNumber ⦃d⦄ x = d.le x x ≡ true

module _ {ℓ} {D : Type ℓ} ⦃d : Double D⦄ where
  -- `std::isnan`
  abbrev pub is_nan : D → Bool
  is_nan x = not (d.le x x)

  -- `std::isfinite`
  abbrev pub is_finite : D → Bool
  is_finite x = d.lt (d.abs x) d.infinity

  abbrev pub sub : D → D → D
  sub x y = d.add x (d.neg y)

  -- `x == y` of two doubles
  abbrev pub eq : D → D → Bool
  eq x y = d.le x y && d.le y x

  -- `is_infinite` and `normalize_infinity` of include/sankhya/types.hpp
  abbrev pub is_infinite : D → Bool
  is_infinite v = eq (d.abs v) d.infinity || d.le d.mps_infinity (d.abs v)

  abbrev pub normalize_infinity : D → D
  normalize_infinity v =
      if not (is_infinite v) then v else if d.lt d.nought v then d.infinity else d.neg d.infinity

  -- `normalize_zero`: the negative zero becomes the positive one.
  abbrev pub normalize_zero : D → D
  normalize_zero v = if eq v d.nought then d.nought else v

  -- `std::max` and `std::min`
  abbrev pub max : D → D → D
  max x y = if d.lt x y then y else x

  abbrev pub min : D → D → D
  min x y = if d.lt y x then y else x

-- The order of IEEE 754: total away from NaN, which compares with nothing.
pub record IsOrdered {ℓ} (D : Type ℓ) ⦃d : Double D⦄ : Type ℓ where
  pub nought-IsNumber : IsNumber d.nought
  pub infinity-top : (x : D) → IsNumber x → x ≼ d.infinity
  pub infinity-bottom : (x : D) → IsNumber x → d.neg d.infinity ≼ x
  pub numbers_of_le : (x y : D) → x ≼ y → IsNumber x × IsNumber y
  pub numbers_of_lt : (x y : D) → d.lt x y ≡ true → IsNumber x × IsNumber y
  pub le_trans : (x y z : D) → x ≼ y → y ≼ z → x ≼ z
  pub le_total : (x y : D) → IsNumber x → IsNumber y → (x ≼ y) ⊎ (y ≼ x)
  pub lt-eq-not-le : (x y : D) → IsNumber x → IsNumber y → d.lt x y ≡ not (d.le y x)

-- The laws can be met: exact integers with the two infinities and NaN.
pub data Extended : Type 0 where
  nan low high : Extended
  num : ℤ → Extended

abbrev pub extended_add : Extended → Extended → Extended
extended_add nan y = nan
extended_add low nan = nan
extended_add low high = nan
extended_add low _ = low
extended_add high nan = nan
extended_add high low = nan
extended_add high _ = high
extended_add (num a) (num b) = num (a +ℤ b)
extended_add (num a) y = y

abbrev pub extended_neg : Extended → Extended
extended_neg nan = nan
extended_neg low = high
extended_neg high = low
extended_neg (num a) = num (pos 0 -ℤ a)

-- The sign that an infinite product takes.
abbrev sign : ℤ → Extended → Extended
sign (pos zero) y = nan
sign (pos (suc n)) y = y
sign (negsuc n) y = extended_neg y

abbrev pub extended_mul : Extended → Extended → Extended
extended_mul nan y = nan
extended_mul low nan = nan
extended_mul low low = high
extended_mul low high = low
extended_mul low (num b) = sign b low
extended_mul high (num b) = sign b high
extended_mul high y = y
extended_mul (num a) (num b) = num (a *ℤ b)
extended_mul (num a) y = sign a y

abbrev pub extended_abs : Extended → Extended
extended_abs low = high
extended_abs (num a) = num (if ltb_ℤ a (pos 0) then pos 0 -ℤ a else a)
extended_abs x = x

abbrev pub extended_le : Extended → Extended → Bool
extended_le nan y = false
extended_le low nan = false
extended_le low _ = true
extended_le high high = true
extended_le high _ = false
extended_le (num a) (num b) = leb_ℤ a b
extended_le (num a) high = true
extended_le (num a) _ = false

abbrev pub extended_lt : Extended → Extended → Bool
extended_lt nan y = false
extended_lt x nan = false
extended_lt x y = not (extended_le y x)

instance abbrev pub extended_double : Double Extended
extended_double = record {
  nought = num (pos 0);
  one = num (pos 1);
  largest = num (pos 1_000_000);
  infinity = high;
  mps_infinity = num (pos 100_000);
  add = extended_add;
  mul = extended_mul;
  neg = extended_neg;
  abs = extended_abs;
  le = extended_le;
  lt = extended_lt;
}

extended-infinity-top : (x : Extended) → x ≼ x → x ≼ high
extended-infinity-top nan h = h
extended-infinity-top _ h = ground arith

extended-infinity-bottom : (x : Extended) → x ≼ x → low ≼ x
extended-infinity-bottom nan h = h
extended-infinity-bottom _ h = ground arith

extended-numbers_of_le : (x y : Extended) → x ≼ y → IsNumber x × IsNumber y
extended-numbers_of_le nan y h = ground arith
extended-numbers_of_le low nan h = ground arith
extended-numbers_of_le _ _ h = ground arith

extended-numbers_of_lt : (x y : Extended) → extended_lt x y ≡ true → IsNumber x × IsNumber y
extended-numbers_of_lt nan y h = ground arith
extended-numbers_of_lt low nan h = ground arith
extended-numbers_of_lt _ _ h = ground arith

extended-le_trans : (x y z : Extended) → x ≼ y → y ≼ z → x ≼ z
extended-le_trans nan y z h k = ground arith
extended-le_trans low low low h k = ground arith
extended-le_trans _ _ _ h k = ground arith

extended-le_total : (x y : Extended) → IsNumber x → IsNumber y → (x ≼ y) ⊎ (y ≼ x)
extended-le_total nan y h k = ground arith
extended-le_total low nan h k = ground arith
extended-le_total _ _ h k = ground arith

extended-lt-eq-not-le :
    (x y : Extended) → IsNumber x → IsNumber y → extended_lt x y ≡ not (extended_le y x)
extended-lt-eq-not-le nan y h k = ground arith
extended-lt-eq-not-le low nan h k = ground arith
extended-lt-eq-not-le _ _ h k = ground arith

pub Extended-IsOrdered : IsOrdered Extended
Extended-IsOrdered = record {
  nought-IsNumber = ground arith;
  infinity-top = extended-infinity-top;
  infinity-bottom = extended-infinity-bottom;
  numbers_of_le = extended-numbers_of_le;
  numbers_of_lt = extended-numbers_of_lt;
  le_trans = extended-le_trans;
  le_total = extended-le_total;
  lt-eq-not-le = extended-lt-eq-not-le;
}
