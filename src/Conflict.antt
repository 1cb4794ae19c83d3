-- ===== src/Conflict.antt =====
-- src/mip/conflict.cpp: learned conflicts, their canonical form, their check against a box and
-- their minimisation. The Farkas aggregation and the JSON text are left out.
use sih.Prelude.{
  ℕ, zero, suc, ◌+◌, Bool, true, false, not, ◌&&◌, ◌||◌, ◌==◌, Option, none, some, List, [], ◌∷◌,
  ◌++◌, if◌then◌else◌, ltb, get_or,
}
use sih.Prelude.Double
use sih.Prelude.Double.{Double, sub}
pub mod Canonical
pub mod Check
pub mod Minimize
pub mod Store

-- `x_column <= value` when `is_upper`, and `x_column >= value` otherwise.
pub record ConflictLiteral {ℓ} (D : Type ℓ) : Type ℓ where
  pub column : ℕ
  pub is_upper : Bool
  pub value : D

-- `a.is_upper < b.is_upper`
abbrev below_flag : Bool → Bool → Bool
below_flag a b = not a && b

abbrev same_flag : Bool → Bool → Bool
same_flag true b = b
same_flag false b = not b

module _ {ℓ} {D : Type ℓ} where
  -- The keys of `canonical`'s map, (column, is_upper), and their order.
  unfoldable pub key_less : ConflictLiteral D → ConflictLiteral D → Bool
  key_less a b = ltb a.column b.column || (a.column == b.column && below_flag a.is_upper b.is_upper)

  unfoldable pub same_slot : ConflictLiteral D → ConflictLiteral D → Bool
  same_slot a b = a.column == b.column && same_flag a.is_upper b.is_upper

module _ {ℓ} {D : Type ℓ} ⦃d : Double D⦄ where
  -- `operator<` and `operator==`
  unfoldable pub less : ConflictLiteral D → ConflictLiteral D → Bool
  less a b =
      if not (a.column == b.column)
      then ltb a.column b.column
      else if not (same_flag a.is_upper b.is_upper)
      then below_flag a.is_upper b.is_upper
      else d.lt a.value b.value

  -- The tighter of two values of one key.
  unfoldable pub tighter : Bool → D → D → D
  tighter is_upper held new = if is_upper then Double.min held new else Double.max held new

  -- One turn of the loop over the literals, on the map in the order of its keys.
  unfoldable pub tighten : ConflictLiteral D → List (ConflictLiteral D) → List (ConflictLiteral D)
  tighten l [] = l ∷ []
  tighten l (m ∷ ms) =
      if same_slot m l
      then record m { value = tighter l.is_upper m.value l.value } ∷ ms
      else if key_less l m
      then l ∷ m ∷ ms
      else m ∷ tighten l ms

  unfoldable pub canonical_onto :
      List (ConflictLiteral D) → List (ConflictLiteral D) → List (ConflictLiteral D)
  canonical_onto tightest [] = tightest
  canonical_onto tightest (l ∷ ls) = canonical_onto (tighten l tightest) ls

  unfoldable pub canonical : List (ConflictLiteral D) → List (ConflictLiteral D)
  unfolding canonical_onto
  canonical = canonical_onto []

  module _ (lower upper : List D) (tolerance : D) where
    unfoldable pub literal_holds : ConflictLiteral D → Bool
    literal_holds l =
        if l.is_upper
        then d.le (get_or upper l.column d.nought) (d.add l.value tolerance)
        else d.le (sub l.value tolerance) (get_or lower l.column d.nought)

    unfoldable pub literal_refuted : ConflictLiteral D → Bool
    literal_refuted l =
        if l.is_upper
        then d.lt (d.add l.value tolerance) (get_or lower l.column d.nought)
        else d.lt (get_or upper l.column d.nought) (sub l.value tolerance)

    -- `verdict` is infeasible, an implied literal, or neither.
    unfoldable pub check_from : ℕ → Option ℕ → List (ConflictLiteral D) → Bool × Option ℕ
    check_from k none [] = (true, none)
    check_from k (some open_at) [] = (false, some open_at)
    check_from k seen (l ∷ ls) =
        let later = check_from (suc k) seen ls in
        let opened = check_from (suc k) (some k) ls in
        if literal_holds l
        then later
        else if literal_refuted l
        then (false, none)
        else (elim seen [ some open_at ↦ (false, none) | none ↦ opened ])

    unfoldable pub check_conflict : List (ConflictLiteral D) → Bool × Option ℕ
    unfolding check_from
    check_conflict = check_from 0 none

  -- The bound that an implied literal's negation gives on an integer column.
  unfoldable pub negation : ConflictLiteral D → ConflictLiteral D
  negation l =
      if l.is_upper
      then record l { is_upper = false; value = d.add l.value d.one }
      else record l { is_upper = true; value = sub l.value d.one }

abbrev pub is_last {ℓ} : {L : Type ℓ} → List L → Bool
is_last [] = true
is_last _ = false

module _ {ℓ} {L : Type ℓ} (verify : List L → Bool) (keep_last : Bool) (budget : ℕ) where
  -- The deletion filter over the literals: those kept so far, those still to try, and the number of
  -- checks made.
  unfoldable pub minimize_from : List L → List L → ℕ → List L × ℕ
  minimize_from kept [] checks = (kept, checks)
  minimize_from kept (l ∷ rest) checks =
      let skipped = minimize_from (kept ++ l ∷ []) rest checks in
      let dropped = minimize_from kept rest (suc checks) in
      let needed = minimize_from (kept ++ l ∷ []) rest (suc checks) in
      if not (ltb checks budget)
      then (kept ++ l ∷ rest, checks)
      else if keep_last && is_last rest
      then skipped
      else if verify (kept ++ rest)
      then dropped
      else needed

  unfoldable pub minimize_conflict : List L → List L × ℕ
  minimize_conflict literals = minimize_from [] literals 0
