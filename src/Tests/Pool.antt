-- ===== src/Tests/Pool.antt =====
-- src/mip/solution_pool.cpp on plans of two integer columns.
use sih.Prelude.{ℕ, true, false, ◌&&◌, ◌≡◌, ◌↔◌, ◌+◌, ◌≤◌, List, [], ◌∷◌, refl, arith, length, All}
use sih.Prelude.Double.{Extended, num, is_finite, Extended-IsOrdered, extended_double}
use sih.Prelude.Int.{ℤ, pos, ◌+ℤ◌, ◌*ℤ◌}
use sih.Pool.{
  Entry, SolutionPool, solution_pool, same_key, hamming, offer, full, cutoff, finish, key_of,
  drop_duplicate, insert_entry, evict_down, evict_one,
}
use sih.Pool.Keys.{hamming_metric}
use sih.Pool.Members.{IsValid, Distinct}
use sih.Pool.Valid.{IsNext, offer_all, offer-IsNext, solution_pool-IsValid}
use sih.Pool.Report.{offer_beyond_cutoff, finish_lem}

abbrev llround : Extended → ℤ
llround (num a) = a
llround _ = pos 0

abbrev plan : ℕ → ℕ → List Extended
plan a b = num (pos a) ∷ num (pos b) ∷ []

abbrev empty_pool : SolutionPool Extended
empty_pool = record { integer_columns = 0 ∷ 1 ∷ []; capacity = 2; diversity = false; entries = [] }

abbrev offers : List (Extended × List Extended)
offers = (num (pos 9), plan 1 1) ∷ (num (pos 4), plan 2 0) ∷ (num (pos 6), plan 1 1) ∷ []

abbrev member : ℕ → ℕ → ℕ → Entry Extended
member objective a b = record {
  objective = num (pos objective);
  x = plan a b;
  key = pos a ∷ pos b ∷ [];
}

abbrev held : SolutionPool Extended
held = record empty_pool { entries = member 4 2 0 ∷ member 6 1 1 ∷ [] }

one_plan_each : offer_all llround offers (solution_pool (0 ∷ 1 ∷ []) 2 false) ≡ held
unfolding offer solution_pool key_of drop_duplicate insert_entry evict_down evict_one same_key
one_plan_each = refl

held-IsValid : IsValid held
unfolding same_key
held-IsValid = record {
  pool = record { numbers = ground arith; ascending = ground arith; distinct = ground arith };
  within = omega arith;
}

hamming_metric_example :
    let a : List ℤ = pos 1 ∷ pos 2 ∷ [] in
    let b : List ℤ = pos 1 ∷ [] in
    let c : List ℤ = [] in
    ((hamming a b ≡ 0) ↔ (same_key a b ≡ true))
    × (hamming a b ≡ hamming b a)
    × (hamming a c ≤ hamming a b + hamming b c)
hamming_metric_example = hamming_metric (pos 1 ∷ pos 2 ∷ []) (pos 1 ∷ []) []

offer-IsNext_example :
    let q = offer llround (num (pos 5)) (plan 0 0) held in
    IsNext Extended-IsOrdered (num (pos 5)) 2 (member 4 2 0 ∷ member 6 1 1 ∷ []) q.entries
    × (q.capacity ≡ 2)
    × (q.diversity ≡ false)
offer-IsNext_example =
    offer-IsNext Extended-IsOrdered llround (num (pos 5)) (plan 0 0) held held-IsValid (omega arith)
      refl

solution_pool-IsValid_example :
    IsValid (offer_all llround offers (solution_pool (0 ∷ 1 ∷ []) 2 true))
solution_pool-IsValid_example =
    solution_pool-IsValid Extended-IsOrdered llround (0 ∷ 1 ∷ []) 2 true offers (ground arith)

offer_beyond_cutoff_example : offer llround (num (pos 6)) (plan 0 0) held ≡ held
unfolding full cutoff
offer_beyond_cutoff_example =
    offer_beyond_cutoff Extended-IsOrdered llround (num (pos 6)) (plan 0 0) held held-IsValid refl
      refl refl

finish_lem_example :
    let limit = num (pos 8) in
    (first : Entry Extended) × (rest : List (Entry Extended)) × (finish llround
        (num (pos 4))
        (plan 2 0)
        (num (pos 1))
        held
      ≡ first ∷ rest)
    × (first.objective ≡ num (pos 4))
    × (first.x ≡ plan 2 0)
    × Distinct (first ∷ rest)
    × (length (first ∷ rest) ≤ 2)
    × All (λ e. (is_finite limit && extended_double.lt limit e.objective) ≡ false) rest
unfolding ◌+ℤ◌ ◌*ℤ◌
finish_lem_example =
    finish_lem llround (num (pos 4)) (plan 2 0) (num (pos 1)) held held-IsValid (omega arith)
