-- ===== src/Conflict/Store/Usefulness.antt =====
-- Which conflicts the eviction of src/mip/conflict.cpp forgets, and what `add` keeps.
use mathlib.Core.List.{Memᴰ}
use mathlib.Core.List.Memᴰ.{head, tail}
use sih.Prelude.{
  ℕ, zero, suc, ◌≤◌, ◌<◌, ◌≡◌, ◌⊎◌, ◌∙◌, Bool, true, false, not, ◌==◌, List, [], ◌∷◌, map, refl,
  sym, ap, arith, inl, inr, Bool-cases, length, filter, length-map, All, Pairwise,
}
use sih.Prelude.Sort.{
  sort, sort-Sorted, IsWeakOrder, Mem-sort, Mem_of-sort, length-sort, Mem-filter, Mem-filter_of,
  length-filter_lt, All-of_Mem, All-Mem, Mem-map, All-map,
}
use sih.Prelude.Double.{Double}
use sih.Prelude.Sub.{Sub, Sub-filter, Sub-map}
use sih.Conflict.{ConflictLiteral}
use sih.Conflict.Store.{
  Entry, ConflictStore, less_useful, indexed, rank_before, is_dropped, evicted_count, sweep, evict,
  erase,
}

module _ {ℓ} {D : Type ℓ} where
  less_useful-IsWeakOrder : IsWeakOrder {A = ℕ × Entry D} rank_before
  unfolding rank_before less_useful
  less_useful-IsWeakOrder = record {
    asym = λ a b h. ground arith;
    skips = λ a b c h k. ground arith;
  }

  -- The entries at positions that are not dropped.
  abbrev pub survivors : (ℕ → Bool) → List (ℕ × Entry D) → List (ℕ × Entry D)
  survivors drop xs = filter (λ x. not (drop x.0)) xs

  pub map-indexed : (k : ℕ) (es : List (Entry D)) → map (λ x. x.1) (indexed k es) ≡ es
  unfolding indexed
  map-indexed k [] = refl
  map-indexed k (e ∷ es) = ap (λ l. e ∷ l) (map-indexed (suc k) es)

  Mem-indexed :
      (k : ℕ) (es : List (Entry D)) (e : Entry D)
      → Memᴰ e es
      → (x : ℕ × Entry D) × Memᴰ x (indexed k es) × (x.1 ≡ e)
  unfolding indexed
  Mem-indexed k [] e m = elim m [ ]
  Mem-indexed k (w ∷ es) e (head q) = ((k, w), head refl, sym q)
  Mem-indexed k (w ∷ es) e (tail m) =
      let (x, n, same) = Mem-indexed (suc k) es e m in (x, tail n, same)

  length-indexed : (k : ℕ) (es : List (Entry D)) → length (indexed k es) ≡ length es
  unfolding indexed
  length-indexed k [] = refl
  length-indexed k (e ∷ es) = ap suc (length-indexed (suc k) es)

  -- A position of the indexed list has one entry.
  indexed-le : (k : ℕ) (es : List (Entry D)) (x : ℕ × Entry D) → Memᴰ x (indexed k es) → k ≤ x.0
  unfolding indexed
  indexed-le k [] x m = elim m [ ]
  indexed-le k (e ∷ es) x (head q) = ground (arith, ap (λ p. p.0) q)
  indexed-le k (e ∷ es) x (tail m) = omega (arith, indexed-le (suc k) es x m)

  indexed_unique :
      (k : ℕ) (es : List (Entry D)) (x y : ℕ × Entry D)
      → Memᴰ x (indexed k es)
      → Memᴰ y (indexed k es)
      → x.0 ≡ y.0
      → x ≡ y
  unfolding indexed
  indexed_unique k [] x y m n e = elim m [ ]
  indexed_unique k (w ∷ es) x y (head p) (head q) e = p ∙ sym q
  indexed_unique k (w ∷ es) x y (head p) (tail n) e =
      absurd (omega (arith, indexed-le (suc k) es y n, ap (λ z. z.0) p))
  indexed_unique k (w ∷ es) x y (tail m) (head q) e =
      absurd (omega (arith, indexed-le (suc k) es x m, ap (λ z. z.0) q))
  indexed_unique k (w ∷ es) x y (tail m) (tail n) e = indexed_unique (suc k) es x y m n e

  -- A sorted list: what is dropped goes before what is not.
  is_dropped-Sorted :
      (count : ℕ) (order : List (ℕ × Entry D)) (y : ℕ × Entry D)
      → Pairwise (λ a b. rank_before b a ≡ false) order
      → Memᴰ y order
      → is_dropped count order y.0 ≡ false
      → (k : ℕ) → is_dropped count order k ≡ true
      → (x : ℕ × Entry D) × Memᴰ x order × (x.0 ≡ k) × (rank_before y x ≡ false)
  unfolding is_dropped
  is_dropped-Sorted zero order y s m f k t = absurd (ground arith)
  is_dropped-Sorted (suc count) [] y s m f k t = elim m [ ]
  is_dropped-Sorted (suc count) (x ∷ order) y s m f k t = elim (Bool-cases (x.0 == k)) [
    | inl same ↦ elim m [
      | head q ↦ absurd (ground (arith, ap (λ z. z.0) q))
      | tail n ↦ (x, head refl, ground arith, All-Mem _ order y s.0 n)
    ]
    | inr other ↦ elim m [
      | head q ↦ absurd (ground (arith, ap (λ z. z.0) q))
      | tail n ↦
          let (z, there, at, first) =
            is_dropped-Sorted count order y s.1 n (ground arith) k (ground arith) in
          (z, tail there, at, first)
    ]
  ]

module _ {ℓ} {D : Type ℓ} ⦃d : Double D⦄ where
  sweep-survivors :
      (drop : ℕ → Bool) (xs : List (ℕ × Entry D)) (known : List (List (ConflictLiteral D)))
      → (sweep drop xs known).0 ≡ map (λ x. x.1) (survivors drop xs)
  unfolding sweep
  sweep-survivors drop [] known = refl
  sweep-survivors drop (x ∷ xs) known = elim (Bool-cases (drop x.0)) [
    | inl t ↦ rw (t, survivors, filter) (sweep-survivors drop xs (erase known x.1.literals))
    | inr f ↦ rw (f, survivors, filter) (ap (λ l. x.1 ∷ l) (sweep-survivors drop xs known))
  ]

  evicted_count-positive : (s : ConflictStore D) → 1 ≤ evicted_count s
  unfolding evicted_count
  evicted_count-positive s = ground arith

  pub evict-Sub : (s : ConflictStore D) → Sub (evict s).entries s.entries
  unfolding evict
  evict-Sub s =
      let drop = is_dropped (evicted_count s) (sort rank_before (indexed 0 s.entries)) in
      rw (sweep-survivors drop (indexed 0 s.entries) s.known) (
        rw (map-indexed 0 s.entries) at
          (Sub-map (λ x. x.1) (Sub-filter (λ x. not (drop x.0)) (indexed 0 s.entries))))

  -- The entry at a dropped position is no more useful than one that survives.
  less_useful-survivor :
      (count : ℕ) (es : List (Entry D)) (x y : ℕ × Entry D)
      → let drop = is_dropped count (sort rank_before (indexed 0 es)) in
        Memᴰ x (indexed 0 es)
        → drop x.0 ≡ true
        → Memᴰ y (survivors drop (indexed 0 es))
        → less_useful y.1 x.1 ≡ false
  unfolding rank_before
  less_useful-survivor count es x y m t n =
      let order = sort rank_before (indexed 0 es) in
      let (inside, kept) = Mem-filter (λ z. not (is_dropped count order z.0)) (indexed 0 es) y n in
      let (z, there, at, first) =
        is_dropped-Sorted count order y
          (sort-Sorted rank_before (indexed 0 es) less_useful-IsWeakOrder)
          (Mem-sort rank_before (indexed 0 es) y inside) (ground arith) x.0 t in
      let same : z ≡ x = indexed_unique 0 es z x (Mem_of-sort rank_before _ z there) m at in
      rw same at first

  first_dropped :
      (count : ℕ) (order : List (ℕ × Entry D))
      → 1 ≤ count
      → 0 < length order
      → (x : ℕ × Entry D) × Memᴰ x order × (is_dropped count order x.0 ≡ true)
  unfolding is_dropped
  first_dropped zero order h k = absurd (omega arith)
  first_dropped (suc count) [] h k = absurd (omega arith)
  first_dropped (suc count) (x ∷ order) h k = (x, head refl, ground arith)

  pub evict-shorter :
      (s : ConflictStore D) → 0 < length s.entries → length (evict s).entries < length s.entries
  unfolding evict
  evict-shorter s h =
      let order = sort rank_before (indexed 0 s.entries) in
      let drop = is_dropped (evicted_count s) order in
      let size : length order ≡ length s.entries =
        length-sort rank_before (indexed 0 s.entries) ∙ length-indexed 0 s.entries in
      let (x, there, dropped) =
        first_dropped (evicted_count s) order (evicted_count-positive s) (omega (arith, size)) in
      let fewer =
        length-filter_lt (λ z. not (drop z.0)) (indexed 0 s.entries) x
          (Mem_of-sort rank_before _ x there) (ground arith) in
      rw (sweep-survivors drop (indexed 0 s.entries) s.known) (
        omega (
          arith,
          length-map (λ z. z.1) (survivors drop (indexed 0 s.entries)),
          length-indexed 0 s.entries,
          fewer,
        ))

  evict-forgets :
      (s : ConflictStore D) (e : Entry D)
      → Memᴰ e s.entries
      → Memᴰ e (evict s).entries ⊎ All (λ k. less_useful k e ≡ false) (evict s).entries
  unfolding evict
  evict-forgets s e m =
      let drop = is_dropped (evicted_count s) (sort rank_before (indexed 0 s.entries)) in
      let (x, there, same) = Mem-indexed 0 s.entries e m in
      rw (sweep-survivors drop (indexed 0 s.entries) s.known, sym same)
        (elim (Bool-cases (drop x.0)) [
          | inl t ↦ inr (
              All-map _ _ (survivors drop (indexed 0 s.entries)) (
                All-of_Mem _ _
                  (λ y n. less_useful-survivor (evicted_count s) s.entries x y there t n)))
          | inr f ↦
              inl (Mem-map _ _ x (Mem-filter_of _ (indexed 0 s.entries) x there (ground arith)))
        ])

  -- Eviction from a store that is not empty keeps some of the entries in their order and forgets at
  -- least one, and each forgotten entry is no more useful than any kept one, in the order of the
  -- uses, then of the last use, then of the age.
  pub evict_lem :
      (s : ConflictStore D)
      → 0 < length s.entries
      → Sub (evict s).entries s.entries
        × (length (evict s).entries < length s.entries)
        × ((e : Entry D)
            → Memᴰ e s.entries
            → Memᴰ e (evict s).entries ⊎ All (λ k. less_useful k e ≡ false) (evict s).entries)
  evict_lem s h = (evict-Sub s, evict-shorter s h, evict-forgets s)
