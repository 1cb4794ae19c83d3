-- ===== src/Conflict/Minimize.antt =====
-- What survives the deletion filter of `minimize_conflict`.
use mathlib.Core.List.{append-nil, append_assoc}
use sih.Prelude.{
  ℕ, suc, ◌+◌, ◌≤◌, ◌≡◌, ◌⊎◌, ◌∙◌, Bool, true, false, ◌&&◌, List, [], ◌∷◌, ◌++◌, sym, arith,
  Bool-cases, inl, inr, ltb, length,
}
use sih.Prelude.Sub.{Sub, stop, keep, skip, Sub-prefix, Sub-nil}
use sih.Conflict.{is_last, minimize_from, minimize_conflict}

module _ {ℓ} {L : Type ℓ} (verify : List L → Bool) (keep_last : Bool) (budget : ℕ) where
  -- The set that the filter holds stays verified, and the checks stay within the budget.
  minimize_from-verified :
      (kept rest : List L) (checks : ℕ)
      → verify (kept ++ rest) ≡ true
      → verify (minimize_from verify keep_last budget kept rest checks).0 ≡ true
  unfolding minimize_from
  minimize_from-verified kept [] checks h = rw (append-nil kept) at h
  minimize_from-verified kept (l ∷ rest) checks h =
      let moved : verify ((kept ++ l ∷ []) ++ rest) ≡ true = rw append_assoc h in
      ground (
        arith,
        minimize_from-verified (kept ++ l ∷ []) rest checks moved,
        minimize_from-verified kept rest (suc checks),
        minimize_from-verified (kept ++ l ∷ []) rest (suc checks) moved,
      )

  minimize_from-le :
      (kept rest : List L) (checks : ℕ)
      → checks ≤ budget
      → (minimize_from verify keep_last budget kept rest checks).1 ≤ budget
  unfolding minimize_from
  minimize_from-le kept [] checks h = h
  minimize_from-le kept (l ∷ rest) checks h = ground (
    arith,
    minimize_from-le (kept ++ l ∷ []) rest checks h,
    minimize_from-le kept rest (suc checks),
    minimize_from-le (kept ++ l ∷ []) rest (suc checks),
  )

module _ {ℓ} {L : Type ℓ} (verify : List L → Bool) (keep_last : Bool) (budget : ℕ) where
  exempt : (rest : List L) → (keep_last && is_last rest) ≡ true → (keep_last ≡ true) × (rest ≡ [])
  exempt [] h = ground arith
  exempt (l ∷ rest) h = ground arith

  -- Each literal is needed: without it the others do not verify. The last one may be exempt.
  abbrev pub Needed : List L → List L → Type ℓ
  Needed before [] = Unit
  Needed before (l ∷ ls) =
      ((verify (before ++ ls) ≡ false) ⊎ ((keep_last ≡ true) × (ls ≡ [])))
      × Needed (before ++ l ∷ []) ls

  -- More literals verify at least as well as fewer.
  abbrev pub IsMonotone : Type ℓ
  IsMonotone = (xs ys : List L) → Sub xs ys → verify xs ≡ true → verify ys ≡ true

  pub record Minimal (kept rest result : List L) : Type ℓ where
    pub survivors : List L
    pub splits : result ≡ kept ++ survivors
    pub among : Sub survivors rest
    pub needed : Needed kept survivors

  Minimal-keep :
      (kept rest result : List L) (l : L)
      → (verify (kept ++ rest) ≡ false) ⊎ ((keep_last ≡ true) × (rest ≡ []))
      → IsMonotone
      → Minimal (kept ++ l ∷ []) rest result
      → Minimal kept (l ∷ rest) result
  Minimal-keep kept rest result l why mono m = record {
    survivors = l ∷ m.survivors;
    splits = m.splits ∙ append_assoc kept (l ∷ []) m.survivors;
    among = keep m.among;
    needed = (
      elim why [
        | inl fails ↦ inl (elim (Bool-cases (verify (kept ++ m.survivors))) [
          | inl t ↦
              let holds : verify (kept ++ rest) ≡ true = mono _ _ (Sub-prefix kept m.among) t in cc
          | inr f ↦ f
        ])
        | inr (exempt, last) ↦ inr (exempt, Sub-nil (rw last at m.among))
      ],
      m.needed,
    );
  }

  minimize_from-Minimal :
      (kept rest : List L) (checks : ℕ)
      → IsMonotone
      → checks + length rest ≤ budget
      → Minimal kept rest (minimize_from verify keep_last budget kept rest checks).0
  unfolding minimize_from
  minimize_from-Minimal kept [] checks mono h = record {
    survivors = [];
    splits = sym (append-nil kept);
    among = stop;
    needed = tt;
  }
  minimize_from-Minimal kept (l ∷ rest) checks mono h =
      let more : ltb checks budget ≡ true = ground arith in
      elim (Bool-cases (keep_last && is_last rest)) [
        | inl c ↦
            rw (more, c)
              (Minimal-keep kept rest _ l (inr (exempt rest c)) mono
                (minimize_from-Minimal (kept ++ l ∷ []) rest checks mono (omega arith)))
        | inr c ↦ elim (Bool-cases (verify (kept ++ rest))) [
          | inl v ↦
              let m = minimize_from-Minimal kept rest (suc checks) mono (omega arith) in
              rw (more, c, v)
                (record {
                  survivors = m.survivors;
                  splits = m.splits;
                  among = skip m.among;
                  needed = m.needed;
                })
          | inr v ↦
              rw (more, c, v)
                (Minimal-keep kept rest _ l (inl v) mono
                  (minimize_from-Minimal (kept ++ l ∷ []) rest (suc checks) mono (omega arith)))
        ]
      ]

  -- A conflict that verifies still verifies after its minimisation, with at most `budget` checks.
  -- Where more literals never verify worse and the budget is no less than their number, the result
  -- is some of the literals in their order and every one of them is needed, but that the last one
  -- is never tried under `keep_last`.
  pub minimize_conflict-Minimal :
      (literals : List L)
      → verify literals ≡ true
      → let (result, checks) = minimize_conflict verify keep_last budget literals in
        (verify result ≡ true)
        × (checks ≤ budget)
        × (IsMonotone → length literals ≤ budget → Sub result literals × Needed [] result)
  unfolding minimize_conflict
  minimize_conflict-Minimal literals h = (
    minimize_from-verified verify keep_last budget [] literals 0 h,
    minimize_from-le verify keep_last budget [] literals 0 (omega arith),
    λ mono enough.
        let m = minimize_from-Minimal [] literals 0 mono (omega arith) in
        (rw m.splits m.among, rw m.splits m.needed),
  )
