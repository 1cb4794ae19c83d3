-- ===== src/Tests/Iis.antt =====
-- src/core/iis.cpp on a model of three rows of which the first and the last contradict each other.
use sih.Prelude.{
  ℕ, Bool, true, false, ◌≡◌, ◌||◌, ◌&&◌, ◌==◌, ◌⊎◌, List, [], ◌∷◌, refl, arith, All, get_or, not,
  Bool-cases, inl, inr, if◌then◌else◌,
}
use sih.Prelude.Double.{Extended, nan, num, extended_le, extended_double}
use sih.Prelude.Int.{pos}
use sih.Status.{infeasible, optimal, feasible}
use sih.Iis.{
  Element, row, col_lo, col_hi, Trial, Shape, Iis, elements, filter_iis, deletion_filter,
  every_witness,
}
use sih.Iis.Sound.{GivesPoints, Irreducible, filter_iis-Irreducible}

abbrev has : ℕ → List Element → Bool
has i [] = false
has i (row j ∷ es) = (i == j) || has i es
has i (_ ∷ es) = has i es

-- The first row asks for a value of at most 2, the last for one of at least 3.
abbrev meets : Extended → Element → Bool
meets v (row i) =
    if i == 0 then extended_le v (num (pos 2)) else not (i == 2) || extended_le (num (pos 3)) v
meets v _ = true

abbrev Sat : List Extended → Element → Type 0
Sat x e = meets (get_or x 0 nan) e ≡ true

abbrev value : List Element → Extended
value active = if has 0 active then num (pos 1) else num (pos 4)

abbrev solver : List Element → Trial Extended
solver active =
    if has 0 active && has 2 active
    then record {
      status = infeasible;
      farkas_dual = num (pos 1) ∷ num (pos 0) ∷ num (pos 1) ∷ [];
      col_value = [];
    }
    else record { status = optimal; farkas_dual = []; col_value = value active ∷ [] }

one_meets : (active : List Element) → has 2 active ≡ false → All (Sat (num (pos 1) ∷ [])) active
one_meets [] h = tt
one_meets (row i ∷ es) h = (ground arith, one_meets es (ground arith))
one_meets (col_lo j ∷ es) h = (refl, one_meets es h)
one_meets (col_hi j ∷ es) h = (refl, one_meets es h)

four_meets : (active : List Element) → has 0 active ≡ false → All (Sat (num (pos 4) ∷ [])) active
four_meets [] h = tt
four_meets (row i ∷ es) h = (ground arith, four_meets es (ground arith))
four_meets (col_lo j ∷ es) h = (refl, four_meets es h)
four_meets (col_hi j ∷ es) h = (refl, four_meets es h)

solver-GivesPoints : GivesPoints solver Sat
solver-GivesPoints active claims = elim (Bool-cases (has 0 active)) [
  | inl first ↦ elim (Bool-cases (has 2 active)) [
    | inl last ↦
        let none_claimed : (infeasible ≡ optimal) ⊎ (infeasible ≡ feasible) =
          rw (first, last) at claims in
        elim none_claimed [ inl e ↦ cc | inr e ↦ cc ]
    | inr free ↦ rw (first, free) (one_meets active free)
  ]
  | inr free ↦ rw free (four_meets active free)
]

abbrev shape : Shape Extended
shape = record {
  num_rows = 3;
  columns = ((0, num (pos 1)) ∷ (2, num (pos 1)) ∷ []) ∷ [];
  lower_is_finite = false ∷ [];
  upper_is_finite = false ∷ [];
}

abbrev proves : List Extended → Bool
proves y = true

abbrev all_rows : List Element
all_rows = row 0 ∷ row 1 ∷ row 2 ∷ []

abbrev found : Iis Extended
found = filter_iis solver proves shape [] all_rows

middle_dropped : elements found.members ≡ row 0 ∷ row 2 ∷ []
unfolding filter_iis deletion_filter every_witness
middle_dropped = refl

filter_iis-Irreducible_example :
    ((solver (elements found.members)).status ≡ infeasible)
    × (proves found.farkas_dual ≡ true)
    × Irreducible solver Sat [] found.members
    × ((P : Element → Type 0) → All P all_rows → All P (elements found.members))
unfolding filter_iis deletion_filter every_witness
filter_iis-Irreducible_example =
    filter_iis-Irreducible solver Sat proves shape [] all_rows solver-GivesPoints refl
