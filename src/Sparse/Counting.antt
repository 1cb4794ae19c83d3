-- ===== src/Sparse/Counting.antt =====
-- src/la/sparse.cpp: the counting sort that `finalize` and `transpose` share: the count of the keys,
-- the prefix sums, and the placement into the next free slot of each key.
use sih.Prelude.{
  ℕ, zero, suc, ◌+◌, ◌-◌, List, [], ◌∷◌, ◌==◌, get_or, set, replicate, take, drop, filter, map,
  length,
}
pub mod Starts
pub mod Slots
pub mod Sorted

-- The running totals, of which each takes the one before.
unfoldable pub prefix_sums : ℕ → List ℕ → List ℕ
prefix_sums total [] = []
prefix_sums total (c ∷ cs) = (total + c) ∷ prefix_sums (total + c) cs

module _ {ℓ} {A : Type ℓ} where
  unfoldable pub count_keys : List (ℕ × A) → List ℕ → List ℕ
  count_keys [] counts = counts
  count_keys ((k, a) ∷ es) counts =
      count_keys es (set counts (suc k) (suc (get_or counts (suc k) 0)))

  -- One more start than there are keys.
  unfoldable pub starts_of : ℕ → List (ℕ × A) → List ℕ
  starts_of keys es = prefix_sums 0 (count_keys es (replicate (suc keys) 0))

  -- `next` holds the next free slot of each key.
  unfoldable pub place : List (ℕ × A) → List ℕ → List A → List A
  place [] next scratch = scratch
  place ((k, a) ∷ es) next scratch =
      let slot = get_or next k 0 in place es (set next k (suc slot)) (set scratch slot a)

  -- The whole sort: the array in which each key has its part.
  unfoldable pub sort_by_key : ℕ → List (ℕ × A) → List A → List A
  sort_by_key keys es scratch = place es (take keys (starts_of keys es)) scratch

  -- The part of an array between two starts.
  unfoldable pub slice : List A → ℕ → ℕ → List A
  slice xs begin end = take (end - begin) (drop begin xs)

  -- The elements of one key, in their order.
  abbrev pub of_key : ℕ → List (ℕ × A) → List A
  of_key k es = map (λ e. e.1) (filter (λ e. e.0 == k) es)
