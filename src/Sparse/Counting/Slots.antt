-- ===== src/Sparse/Counting/Slots.antt =====
-- The placement of the counting sort: each key's part of the array gets that key's elements.
use mathlib.Core.List.{append_assoc, append-nil}
use sih.Prelude.{
  true, false, ℕ, ltb, ◌⊎◌, suc, ◌+◌, ◌≤◌, ◌<◌, ◌≡◌, ◌∙◌, List, [], ◌∷◌, ◌++◌, refl, ap, arith,
  ◌==◌, get_or, set, take, drop, length, All, length-set, length-append, get_or-set_self,
  get_or-set_ne, take-set_end, take-set_outside, if◌then◌else◌, inl, inr, Bool-cases,
}
use sih.Sparse.Counting.{place, of_key}

module _ {ℓ} {A : Type ℓ} where
  -- In the middle of the placement: what each key's part holds so far, and what is still to come.
  pub record Placing (keys : ℕ) (start : ℕ → ℕ) (held : ℕ → List A) (es : List (ℕ × A))
      (next : List ℕ) (scratch : List A) : Type ℓ where
    pub free : (k : ℕ) → k < keys → get_or next k 0 ≡ start k + length (held k)
    pub fits : (k : ℕ) → k < keys → start k + length (held k) + length (of_key k es) ≤ start (suc k)
    pub rises : (j k : ℕ) → j ≤ k → k ≤ keys → start j ≤ start k
    pub within : start keys ≤ length scratch
    pub next_size : length next ≡ keys
    pub written : (k : ℕ) → k < keys → take (length (held k)) (drop (start k) scratch) ≡ held k

  -- One more element of a key.
  abbrev hold : (ℕ → List A) → ℕ → A → ℕ → List A
  hold held k a j = if k == j then held j ++ a ∷ [] else held j

  pub of_key-eq :
      (k j : ℕ) (a : A) (es : List (ℕ × A))
      → (k == j) ≡ true
      → of_key j ((k, a) ∷ es) ≡ a ∷ of_key j es
  of_key-eq k j a es h = ground arith

  pub of_key-ne :
      (k j : ℕ) (a : A) (es : List (ℕ × A))
      → (k == j) ≡ false
      → of_key j ((k, a) ∷ es) ≡ of_key j es
  of_key-ne k j a es h = ground arith

  hold-of_key :
      (held : ℕ → List A) (k : ℕ) (a : A) (es : List (ℕ × A)) (j : ℕ)
      → hold held k a j ++ of_key j es ≡ held j ++ of_key j ((k, a) ∷ es)
  hold-of_key held k a es j = elim (Bool-cases (k == j)) [
    | inl t ↦
        let grown : hold held k a j ≡ held j ++ a ∷ [] = rw t in
        rw (grown, of_key-eq k j a es t, append_assoc)
    | inr f ↦ let same : hold held k a j ≡ held j = rw f in rw (same, of_key-ne k j a es f)
  ]

  module _ (keys : ℕ) (start : ℕ → ℕ) (held : ℕ → List A) (k : ℕ) (a : A) (es : List (ℕ × A))
      (next : List ℕ) (scratch : List A) (p : Placing keys start held ((k, a) ∷ es) next scratch)
      (here : k < keys) where
    open p use {free, fits, rises, within, next_size, written}

    slot_fits : start k + length (held k) < start (suc k)
    slot_fits = let self : (k == k) ≡ true = ground arith in ground (arith, fits k here)

    slot_within : start k + length (held k) < length scratch
    slot_within = omega (arith, slot_fits, rises (suc k) keys (omega arith) (omega arith), within)

    -- The write of another key is outside of a key's part.
    slot_outside :
        (j : ℕ)
        → j < keys
        → (k == j) ≡ false
        → (start k + length (held k) < start j)
          ⊎ (start j + length (held j) ≤ start k + length (held k))
    slot_outside j l f = elim (Bool-cases (ltb k j)) [
      | inl t ↦ inl (omega (arith, slot_fits, rises (suc k) j (ground arith) (omega arith)))
      | inr g ↦ inr (omega (arith, fits j l, rises (suc j) k (ground arith) (omega arith)))
    ]

    step-written :
        (j : ℕ)
        → j < keys
        → take
            (length (hold held k a j))
            (drop (start j) (set scratch (start k + length (held k)) a))
          ≡ hold held k a j
    step-written j l = elim (Bool-cases (k == j)) [
      | inl t ↦
          let e : k ≡ j = ground arith in
          let longer : length (held k ++ a ∷ []) ≡ suc (length (held k)) =
            omega (arith, length-append (held k) (a ∷ [])) in
          rw (t, ← e)
            (rw longer (
              take-set_end (start k) (length (held k)) scratch a slot_within
              ∙ ap (λ l. l ++ a ∷ []) (written k here)))
      | inr f ↦ rw f (
          take-set_outside (start j) (length (held j)) (start k + length (held k)) scratch a
            (slot_outside j l f)
          ∙ written j l)
    ]

    step-Placing :
        Placing keys start
          (hold held k a)
          es
          (set next k (suc (get_or next k 0)))
          (set scratch (get_or next k 0) a)
    step-Placing = record {
      free = λ j l. elim (Bool-cases (k == j)) [
        | inl t ↦
            let e : k ≡ j = ground arith in
            rw t (
              ground (
                arith,
                free j l,
                get_or-set_self next k (suc (get_or next k 0)) 0,
                length-append (held j) (a ∷ []),
              ))
        | inr f ↦
            rw f (get_or-set_ne next k j (suc (get_or next k 0)) 0 (λ e. ground arith) ∙ free j l)
      ];
      fits = λ j l. elim (Bool-cases (k == j)) [
        | inl t ↦ rw t (ground (arith, fits j l, length-append (held j) (a ∷ [])))
        | inr f ↦ rw f (ground (arith, fits j l))
      ];
      rises = rises;
      within = rw length-set within;
      next_size = length-set next k (suc (get_or next k 0)) ∙ next_size;
      written = rw (free k here) step-written;
    }

  -- At the end each key's part holds all elements of the key, in their order.
  pub place-written :
      (keys : ℕ) (start : ℕ → ℕ) (held : ℕ → List A) (es : List (ℕ × A)) (next : List ℕ)
      (scratch : List A)
      → All (λ e. e.0 < keys) es
      → Placing keys start held es next scratch
      → (j : ℕ) → j < keys
      → take (length (held j ++ of_key j es)) (drop (start j) (place es next scratch))
        ≡ held j ++ of_key j es
  unfolding place
  place-written keys start held [] next scratch h p j l = rw append-nil (p.written j l)
  place-written keys start held ((k, a) ∷ es) next scratch h p j l =
      rw (← (hold-of_key held k a es j)) (
        place-written keys start (hold held k a) es (set next k (suc (get_or next k 0)))
          (set scratch (get_or next k 0) a) h.1
          (step-Placing keys start held k a es next scratch p h.0) j l)

  pub length-place :
      (es : List (ℕ × A)) (next : List ℕ) (scratch : List A)
      → length (place es next scratch) ≡ length scratch
  unfolding place
  length-place [] next scratch = refl
  length-place ((k, a) ∷ es) next scratch =
      length-place es (set next k (suc (get_or next k 0))) (set scratch (get_or next k 0) a)
      ∙ length-set scratch (get_or next k 0) a
