-- ===== src/Sparse/Counting/Starts.antt =====
-- The starts of the counting sort: how many elements have a smaller key.
use sih.Prelude.{
  ℕ, zero, suc, ◌+◌, ◌≤◌, ◌<◌, ◌≡◌, ◌∙◌, List, [], ◌∷◌, refl, arith, ◌==◌, ltb, get_or, set,
  replicate, filter, length, All, length-set, length-replicate, get_or-set_self, get_or-set_ne, inl,
  inr, Bool-cases, get_or-replicate,
}
use sih.Sparse.Counting.{prefix_sums, count_keys, starts_of, of_key}

length-prefix_sums : (total : ℕ) (cs : List ℕ) → length (prefix_sums total cs) ≡ length cs
unfolding prefix_sums
length-prefix_sums total [] = refl
length-prefix_sums total (c ∷ cs) = omega (arith, length-prefix_sums (total + c) cs)

-- The totals follow any function that grows by the counts.
prefix_sums-get :
    (f : ℕ → ℕ) (cs : List ℕ) (j : ℕ)
    → ((k : ℕ) → k < length cs → f (suc k) ≡ f k + get_or cs k 0)
    → j < length cs
    → get_or (prefix_sums (f 0) cs) j 0 ≡ f (suc j)
unfolding prefix_sums
prefix_sums-get f [] j grows h = absurd (omega arith)
prefix_sums-get f (c ∷ cs) zero grows h = ground (arith, grows 0)
prefix_sums-get f (c ∷ cs) (suc j) grows h =
    let first : f 0 + c ≡ f 1 = ground (arith, grows 0) in
    rw first
      (prefix_sums-get (λ k. f (suc k)) cs j (λ k l. grows (suc k) (omega arith)) (omega arith))

module _ {ℓ} {A : Type ℓ} where
  abbrev pub below : ℕ → List (ℕ × A) → ℕ
  below k es = length (filter (λ e. ltb e.0 k) es)

  pub below-suc : (k : ℕ) (es : List (ℕ × A)) → below (suc k) es ≡ below k es + length (of_key k es)
  below-suc k [] = omega arith
  below-suc k ((j, a) ∷ es) = ground (arith, below-suc k es)

  pub below-zero : (es : List (ℕ × A)) → below 0 es ≡ 0
  below-zero [] = refl
  below-zero ((j, a) ∷ es) = ground (arith, below-zero es)

  pub below_mono : (j k : ℕ) (es : List (ℕ × A)) → j ≤ k → below j es ≤ below k es
  below_mono j k [] h = omega arith
  below_mono j k ((i, a) ∷ es) h = ground (arith, below_mono j k es h)

  pub below_total : (n : ℕ) (es : List (ℕ × A)) → All (λ e. e.0 < n) es → below n es ≡ length es
  below_total n [] h = refl
  below_total n ((i, a) ∷ es) h = ground (arith, below_total n es h.1)

  length-count_keys :
      (es : List (ℕ × A)) (counts : List ℕ) → length (count_keys es counts) ≡ length counts
  unfolding count_keys
  length-count_keys [] counts = refl
  length-count_keys ((k, a) ∷ es) counts =
      length-count_keys es (set counts (suc k) (suc (get_or counts (suc k) 0)))
      ∙ length-set counts (suc k) (suc (get_or counts (suc k) 0))

  count_keys-zero :
      (es : List (ℕ × A)) (counts : List ℕ) → get_or (count_keys es counts) 0 0 ≡ get_or counts 0 0
  unfolding count_keys
  count_keys-zero [] counts = refl
  count_keys-zero ((k, a) ∷ es) counts =
      let step = suc (get_or counts (suc k) 0) in
      count_keys-zero es (set counts (suc k) step)
      ∙ get_or-set_ne counts (suc k) 0 step 0 (λ e. omega arith)

  count_keys-suc :
      (es : List (ℕ × A)) (counts : List ℕ) (j : ℕ)
      → suc j < length counts
      → get_or (count_keys es counts) (suc j) 0 ≡ get_or counts (suc j) 0 + length (of_key j es)
  unfolding count_keys
  count_keys-suc [] counts j h = omega arith
  count_keys-suc ((k, a) ∷ es) counts j h =
      let step = suc (get_or counts (suc k) 0) in
      let later = count_keys-suc es (set counts (suc k) step) j in
      elim (Bool-cases (k == j)) [
        | inl same ↦
            let e : k ≡ j = ground arith in
            ground
              (arith, later, length-set counts (suc k) step, get_or-set_self counts (suc k) step 0)
        | inr other ↦ ground (
          arith,
          later,
          length-set counts (suc k) step,
          get_or-set_ne counts (suc k) (suc j) step 0 (λ e. ground arith),
        )
      ]

  -- The starts, with a zero in front.
  abbrev before : List (ℕ × A) → ℕ → ℕ
  before es zero = 0
  before es (suc k) = below k es

  before-grows :
      (keys : ℕ) (es : List (ℕ × A)) (k : ℕ)
      → k < length (count_keys es (replicate (suc keys) 0))
      → before es (suc k) ≡ before es k + get_or (count_keys es (replicate (suc keys) 0)) k 0
  before-grows keys es zero h =
      omega (arith, below-zero es, count_keys-zero es (replicate (suc keys) 0))
  before-grows keys es (suc k) h =
      let counts : List ℕ = replicate (suc keys) 0 in
      omega (
        arith,
        below-suc k es,
        count_keys-suc es counts k (omega (arith, length-count_keys es counts)),
        get_or-replicate {A = ℕ} keys k 0,
      )

  -- The start of a key is the number of the elements with a smaller key.
  pub starts_of-below :
      (keys : ℕ) (es : List (ℕ × A)) (j : ℕ)
      → j ≤ keys
      → get_or (starts_of keys es) j 0 ≡ below j es
  unfolding starts_of
  starts_of-below keys es j h =
      prefix_sums-get (before es) (count_keys es (replicate (suc keys) 0)) j (before-grows keys es)
        (omega
          (arith, length-count_keys es (replicate (suc keys) 0), length-replicate {A = ℕ} keys 0))

  pub length-starts_of : (keys : ℕ) (es : List (ℕ × A)) → length (starts_of keys es) ≡ suc keys
  unfolding starts_of
  length-starts_of keys es =
      length-prefix_sums 0 (count_keys es (replicate (suc keys) 0))
      ∙ length-count_keys es (replicate (suc keys) 0)
      ∙ length-replicate (suc keys) 0
