-- ===== src/Sparse/Counting/Sorted.antt =====
-- The counting sort is the stable sort by key.
use sih.Prelude.{
  ℕ, suc, ◌-◌, ◌<◌, ◌≡◌, List, [], arith, get_or, take, length, All, refl, get_or-take, length-take,
}
use sih.Sparse.Counting.{starts_of, sort_by_key, slice, of_key}
use sih.Sparse.Counting.Starts.{
  below, below-suc, below_mono, below_total, starts_of-below, length-starts_of,
}
use sih.Sparse.Counting.Slots.{Placing, place-written, length-place}

module _ {ℓ} {A : Type ℓ} (keys : ℕ) (es : List (ℕ × A)) (scratch : List A) where
  start-Placing :
      All (λ e. e.0 < keys) es
      → length scratch ≡ length es
      → Placing keys (λ k. below k es) (λ _. []) es (take keys (starts_of keys es)) scratch
  start-Placing h n = record {
    free = λ k l. omega (
      arith,
      get_or-take keys k (starts_of keys es) 0 l,
      starts_of-below keys es k (omega arith),
    );
    fits = λ k l. omega (arith, below-suc k es);
    rises = λ j k l _. below_mono j k es l;
    within = omega (arith, below_total keys es h);
    next_size = length-take keys (starts_of keys es) (omega (arith, length-starts_of keys es));
    written = λ k l. refl;
  }

  -- Between the starts of a key and of the next one stand the elements of the key, in the order in
  -- which they came.
  pub slice-sort_by_key :
      (j : ℕ)
      → All (λ e. e.0 < keys) es
      → length scratch ≡ length es
      → j < keys
      → slice
          (sort_by_key keys es scratch)
          (get_or (starts_of keys es) j 0)
          (get_or (starts_of keys es) (suc j) 0)
        ≡ of_key j es
  unfolding sort_by_key slice
  slice-sort_by_key j h n l =
      let size : below (suc j) es - below j es ≡ length (of_key j es) =
        omega (arith, below-suc j es) in
      rw
        (
          starts_of-below keys es j (omega arith),
          starts_of-below keys es (suc j) (omega arith),
          size,
        )
        (place-written keys (λ k. below k es) (λ _. []) es (take keys (starts_of keys es)) scratch h
          (start-Placing h n) j l)

  pub length-sort_by_key : length (sort_by_key keys es scratch) ≡ length scratch
  unfolding sort_by_key
  length-sort_by_key = length-place es (take keys (starts_of keys es)) scratch
