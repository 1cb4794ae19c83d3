-- ===== src/Conflict/Store/Valid.antt =====
-- The store of src/mip/conflict.cpp stays well formed under `add`.
use mathlib.Core.List.{Memᴰ, append_assoc}
use mathlib.Core.List.Memᴰ.{head, tail, append_cases, append_left, append_right}
use sih.Prelude.{
  ℕ, ◌≤◌, ◌<◌, ◌≡◌, ◌≢◌, ◌⊎◌, Bool, true, false, not, ◌==◌, List, [], ◌∷◌, ◌++◌, map, refl, sym,
  arith, ◌∙◌, ◌↔◌, inl, inr, Bool-cases, leb, length, length-append, Pairwise-append, All,
  All-append, All-impl, Pairwise,
}
use sih.Prelude.Double.{Double, IsOrdered}
use sih.Prelude.Sort.{All-of_Mem, All-Mem, Mem-filter}
use sih.Prelude.Sub.{Sub-length, Sub-All, Sub-Pairwise}
use sih.Conflict.{ConflictLiteral, less}
use sih.Conflict.Store.{
  Entry, ConflictStore, ConflictSource, sweep, indexed, evict, push, make_room, add, contains,
  lex_less, same_literals, erase,
}
use sih.Conflict.Store.Usefulness.{evict-Sub, evict-shorter, map-indexed}

module _ {ℓ} {D : Type ℓ} ⦃d : Double D⦄ where
  -- One of the entries holds the conflict.
  abbrev pub Stored : List (Entry D) → List (ConflictLiteral D) → Type ℓ
  Stored entries k = (e : Entry D) × Memᴰ e entries × (same_literals e.literals k ≡ true)

  pub record IsValid (s : ConflictStore D) : Type ℓ where
    pub fits : length s.entries ≤ s.capacity
    pub earlier : All (λ e. e.id < s.next_id) s.entries
    pub ordered : Pairwise (λ e f. e.id < f.id) s.entries
    pub known_stored : All (Stored s.entries) s.known

  -- A known conflict is the given one, and an entry holds it.
  abbrev pub Repeats :
      List (List (ConflictLiteral D)) → List (Entry D) → List (ConflictLiteral D) → Type ℓ
  Repeats known entries literals =
      (k : List (ConflictLiteral D)) × Memᴰ k known
      × Stored entries k
      × (same_literals k literals ≡ true)

  contains-Stored :
      (entries : List (Entry D)) (known : List (List (ConflictLiteral D)))
      (literals : List (ConflictLiteral D))
      → All (Stored entries) known
      → contains known literals ≡ true
      → Repeats known entries literals
  unfolding contains
  contains-Stored entries [] literals h t = absurd (ground arith)
  contains-Stored entries (k ∷ known) literals h t = elim (Bool-cases (same_literals k literals)) [
    | inl same ↦ (k, head refl, h.0, same)
    | inr f ↦
        let (l, inside, there, same) = contains-Stored entries known literals h.1 (ground arith) in
        (l, tail inside, there, same)
  ]

  contains-Memᴰ :
      (known : List (List (ConflictLiteral D))) (k literals : List (ConflictLiteral D))
      → Memᴰ k known
      → same_literals k literals ≡ true
      → contains known literals ≡ true
  unfolding contains
  contains-Memᴰ [] k literals m same = elim m [ ]
  contains-Memᴰ (l ∷ known) k literals (head e) same =
      let here : same_literals l literals ≡ true = rw (sym e) same in ground (arith, here)
  contains-Memᴰ (l ∷ known) k literals (tail m) same =
      ground (arith, contains-Memᴰ known k literals m same)

  same_literals-sym : (xs ys : List (ConflictLiteral D)) → same_literals xs ys ≡ same_literals ys xs
  unfolding same_literals
  same_literals-sym xs ys = ground arith

  lex_less_irrefl : IsOrdered D → (xs : List (ConflictLiteral D)) → lex_less xs xs ≡ false
  unfolding lex_less less
  lex_less_irrefl o [] = refl
  lex_less_irrefl o (x ∷ xs) =
      let same : d.lt x.value x.value ≡ false = elim (Bool-cases (d.lt x.value x.value)) [
        | inl t ↦
            let (number, _) = o.numbers_of_lt _ _ t in
            ground (arith, o.lt-eq-not-le x.value x.value number number)
        | inr f ↦ f
      ] in
      ground (arith, lex_less_irrefl o xs)

  erase-Stored :
      (front back : List (Entry D)) (known : List (List (ConflictLiteral D))) (e : Entry D)
      → All (Stored (front ++ e ∷ back)) known
      → All (Stored (front ++ back)) (erase known e.literals)
  unfolding erase
  erase-Stored front back known e h = All-of_Mem _ _ (λ k m.
      let (inside, differs) = Mem-filter (λ l. not (same_literals l e.literals)) known k m in
      let (f, there, same) = All-Mem _ known k h inside in
      elim (append_cases front there) [
        | inl before ↦ (f, append_left back before, same)
        | inr (head q) ↦
            let turned : same_literals e.literals k ≡ true = rw q at same in
            absurd (ground (arith, same_literals-sym e.literals k))
        | inr (tail after) ↦ (f, append_right front after, same)
      ])

  sweep-Stored :
      (drop : ℕ → Bool) (front : List (Entry D)) (xs : List (ℕ × Entry D))
      (known : List (List (ConflictLiteral D)))
      → All (Stored (front ++ map (λ x. x.1) xs)) known
      → let (kept, left) = sweep drop xs known in All (Stored (front ++ kept)) left
  unfolding sweep
  sweep-Stored drop front [] known h = h
  sweep-Stored drop front (x ∷ xs) known h = elim (Bool-cases (drop x.0)) [
    | inl t ↦ rw t (
        sweep-Stored drop front xs (erase known x.1.literals)
          (erase-Stored front (map (λ y. y.1) xs) known x.1 h))
    | inr f ↦
        let moved : All (Stored ((front ++ x.1 ∷ []) ++ map (λ y. y.1) xs)) known =
          rw (append_assoc front (x.1 ∷ []) (map (λ y. y.1) xs)) h in
        rw (f, sym (append_assoc front (x.1 ∷ []) (sweep drop xs known).0))
          (sweep-Stored drop (front ++ x.1 ∷ []) xs known moved)
  ]

  evict-IsValid : (s : ConflictStore D) → IsValid s → IsValid (evict s)
  unfolding evict
  evict-IsValid s v =
      let few = evict-Sub s in
      record {
        fits = omega (arith, Sub-length few, v.fits);
        earlier = Sub-All _ few v.earlier;
        ordered = Sub-Pairwise _ few v.ordered;
        known_stored =
            sweep-Stored _ [] (indexed 0 s.entries) s.known
              (rw (map-indexed 0 s.entries) v.known_stored);
      }

  make_room-IsValid :
      (s : ConflictStore D)
      → s.capacity ≢ 0
      → IsValid s
      → IsValid (make_room s) × (length (make_room s).entries < (make_room s).capacity)
  unfolding make_room evict
  make_room-IsValid s h v = elim (Bool-cases (leb s.capacity (length s.entries))) [
    | inl t ↦ rw t (evict-IsValid s v, omega (arith, evict-shorter s (ground arith), v.fits))
    | inr f ↦ rw f (v, ground arith)
  ]

  push-IsValid :
      (s : ConflictStore D) (literals : List (ConflictLiteral D)) (source : ConflictSource)
      (node : ℕ)
      → IsOrdered D
      → length s.entries < s.capacity
      → IsValid s
      → IsValid (push s literals source node)
  unfolding push same_literals
  push-IsValid s literals source node o h v = record {
    fits = omega (arith, length-append s.entries _);
    earlier =
        All-append _ s.entries _ (All-impl _ _ s.entries (λ e b. omega (arith, b)) v.earlier)
          (omega arith, tt);
    ordered =
        Pairwise-append _ s.entries _ v.ordered (tt, tt)
          (All-impl _ _ s.entries (λ e b. (b, tt)) v.earlier);
    known_stored = (
      (_, append_right s.entries (head refl), ground (arith, lex_less_irrefl o literals)),
      All-impl _ _ s.known (λ k (e, m, same). (e, append_left _ m, same)) v.known_stored,
    );
  }

  -- Adding to a well-formed store: it stays well formed, and the conflict is refused exactly where the
  -- store has no capacity, or the set of known conflicts has a member that is equivalent to it and to
  -- the literals of an entry, in the order that the set sorts by. Well formed: no more entries than
  -- the capacity, ids that increase and stay below the next one, and an entry for each member of the
  -- set of known conflicts.
  pub add-IsValid :
      (s : ConflictStore D) (literals : List (ConflictLiteral D)) (source : ConflictSource)
      (node : ℕ)
      → IsOrdered D
      → IsValid s
      → let (added, t) = add s literals source node in
        IsValid t × ((added ≡ false) ↔ ((s.capacity ≡ 0) ⊎ Repeats s.known s.entries literals))
  unfolding add
  add-IsValid s literals source node o v = elim (Bool-cases (s.capacity == 0)) [
    | inl t ↦ rw t (v, (λ _. inl (ground arith), λ _. refl))
    | inr f ↦ elim (Bool-cases (contains s.known literals)) [
      | inl t ↦
          rw (f, t)
            (
              record {
                fits = v.fits;
                earlier = v.earlier;
                ordered = v.ordered;
                known_stored = v.known_stored;
              },
              (λ _. inr (contains-Stored s.entries s.known literals v.known_stored t), λ _. refl),
            )
      | inr g ↦
          let (room, more) = make_room-IsValid s (ground arith) v in
          rw (f, g)
            (
              push-IsValid (make_room s) literals source node o more room,
              (
                λ h. absurd (ground arith),
                λ h. elim h [
                  | inl none ↦ absurd (ground arith)
                  | inr (k, m, _, same) ↦
                      let bad : true ≡ false = sym (contains-Memᴰ s.known k literals m same) ∙ g in
                      absurd (ground arith)
                ],
              ),
            )
    ]
  ]
