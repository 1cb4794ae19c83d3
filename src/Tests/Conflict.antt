-- ===== src/Tests/Conflict.antt =====
-- src/mip/conflict.cpp on conflicts of two columns with whole bounds.
use mathlib.Core.List.{Memᴰ}
use sih.Prelude.{
  ap, ◌↔◌, ℕ, zero, suc, true, false, ◌≡◌, ◌↔◌, ◌≤◌, ◌<◌, ◌⊎◌, Bool, none, some, List, [], ◌∷◌,
  refl, arith, leb, length, All,
}
use sih.Prelude.Double.{Extended, num, Extended-IsOrdered, extended_double}
use sih.Prelude.Int.{pos, ◌+ℤ◌, ◌-ℤ◌}
use sih.Prelude.Sub.{Sub}
use sih.Conflict.{
  ConflictLiteral, canonical, check_conflict, check_from, literal_holds, literal_refuted,
  minimize_conflict, minimize_from, canonical_onto, tighten, tighter, same_slot, key_less,
}
use sih.Conflict.Canonical.{IsCanonical, Meets, canonical_lem}
use sih.Conflict.Check.{Holds, OnlyOpen, FalseAt, check_conflict_lem, check_conflict-Sound}
use sih.Conflict.Minimize.{Needed, IsMonotone, minimize_conflict-Minimal}
use sih.Conflict.Store.{
  ConflictStore, Entry, add, evict, propagation, push, make_room, contains, less_useful,
}
use sih.Conflict.Store.Usefulness.{evict_lem}
use sih.Conflict.Store.Valid.{IsValid, Repeats, add-IsValid}

abbrev at_least : ℕ → ℕ → ConflictLiteral Extended
at_least column value = record { column = column; is_upper = false; value = num (pos value) }

abbrev at_most : ℕ → ℕ → ConflictLiteral Extended
at_most column value = record { column = column; is_upper = true; value = num (pos value) }

-- Not both columns are 1.
abbrev both_one : List (ConflictLiteral Extended)
both_one = at_least 0 1 ∷ at_least 1 1 ∷ []

abbrev lower : List Extended
lower = num (pos 1) ∷ num (pos 0) ∷ []

abbrev upper : List Extended
upper = num (pos 1) ∷ num (pos 1) ∷ []

second_implied : check_conflict lower upper (num (pos 0)) both_one ≡ (false, some 1)
unfolding check_conflict check_from literal_holds literal_refuted ◌+ℤ◌ ◌-ℤ◌
second_implied = refl

both_hold : check_conflict upper upper (num (pos 0)) both_one ≡ (true, none)
unfolding check_conflict check_from literal_holds literal_refuted ◌+ℤ◌ ◌-ℤ◌
both_hold = refl

check_conflict_lem_example :
    let verdict = check_conflict lower upper (num (pos 0)) both_one in
    ((verdict.0 ≡ true) ↔ All (Holds lower upper (num (pos 0))) both_one)
    × ((k : ℕ) → (verdict.1 ≡ some k) ↔ OnlyOpen lower upper (num (pos 0)) k both_one)
check_conflict_lem_example = check_conflict_lem lower upper (num (pos 0)) both_one

abbrev point : ℕ → Extended
point zero = num (pos 1)
point (suc k) = num (pos 0)

check_conflict-Sound_example :
    let verdict = check_conflict lower upper (num (pos 0)) both_one in
    (verdict.0 ≡ false)
    × ((k : ℕ) → verdict.1 ≡ some k → FalseAt lower upper (num (pos 0)) point k both_one)
unfolding ◌+ℤ◌ ◌-ℤ◌
check_conflict-Sound_example =
    check_conflict-Sound lower upper (num (pos 0)) point both_one Extended-IsOrdered
      ((refl, refl), ((refl, refl), tt)) (λ all_true. ground (arith, all_true.1.0))

abbrev loose : List (ConflictLiteral Extended)
loose = at_most 1 5 ∷ at_least 0 1 ∷ at_most 1 3 ∷ at_least 0 2 ∷ []

tight : canonical loose ≡ at_least 0 2 ∷ at_most 1 3 ∷ []
unfolding canonical canonical_onto tighten tighter same_slot key_less
tight = refl

canonical_lem_example :
    IsCanonical (canonical loose)
    × (All (Meets (num (pos 2) ∷ [])) (canonical loose) ↔ All (Meets (num (pos 2) ∷ [])) loose)
canonical_lem_example =
    canonical_lem Extended-IsOrdered (num (pos 2) ∷ []) loose (refl, (refl, (refl, (refl, tt))))

-- Two literals are enough for infeasibility.
abbrev verify : List ℕ → Bool
verify literals = leb 2 (length literals)

abbrev three : List ℕ
three = 4 ∷ 7 ∷ 9 ∷ []

first_dropped : minimize_conflict verify false 5 three ≡ (7 ∷ 9 ∷ [], 3)
unfolding minimize_conflict minimize_from
first_dropped = refl

minimize_conflict-Minimal_example :
    let (result, checks) = minimize_conflict verify false 5 three in
    (verify result ≡ true)
    × (checks ≤ 5)
    × (IsMonotone verify false 5
        → length three ≤ 5
        → Sub result three × Needed verify false 5 [] result)
minimize_conflict-Minimal_example = minimize_conflict-Minimal verify false 5 three refl

abbrev empty_store : ConflictStore Extended
empty_store = record {
  capacity = 1;
  entries = [];
  known = [];
  next_id = 0;
  evicted = 0;
  duplicates = 0;
}

empty_store-IsValid : IsValid empty_store
empty_store-IsValid = record { fits = omega arith; earlier = tt; ordered = tt; known_stored = tt }

abbrev one_entry : ConflictStore Extended
one_entry = record empty_store {
  entries =
      record {
        literals = both_one;
        source = propagation;
        id = 0;
        created = 3;
        last_used = 3;
        uses = 0;
      }
      ∷ [];
  known = both_one ∷ [];
  next_id = 1;
}

stored : add empty_store both_one propagation 3 ≡ (true, one_entry)
unfolding add push make_room contains
stored = refl

one_entry-IsValid : IsValid one_entry
one_entry-IsValid =
    rw (← (ap (λ r. r.1) stored))
      (add-IsValid empty_store both_one propagation 3 Extended-IsOrdered empty_store-IsValid).0

add-IsValid_example :
    let (added, t) = add one_entry both_one propagation 3 in
    IsValid t
    × ((added ≡ false)
        ↔ ((one_entry.capacity ≡ 0) ⊎ Repeats one_entry.known one_entry.entries both_one))
add-IsValid_example =
    add-IsValid one_entry both_one propagation 3 Extended-IsOrdered one_entry-IsValid

evict_lem_example :
    Sub (evict one_entry).entries one_entry.entries
    × (length (evict one_entry).entries < length one_entry.entries)
    × ((e : Entry Extended)
        → Memᴰ e one_entry.entries
        → Memᴰ e (evict one_entry).entries
          ⊎ All (λ k. less_useful k e ≡ false) (evict one_entry).entries)
evict_lem_example = evict_lem one_entry (omega arith)
