-- ===== src/Conflict/Check.antt =====
-- What the verdict of `check_conflict` says about the points of the box.
use sih.Prelude.{
  ℕ, zero, suc, ◌+◌, ◌≡◌, ◌↔◌, Bool, true, false, none, some, List, [], ◌∷◌, refl, ap, arith,
  Bool-cases, inl, inr, if◌then◌else◌, get_or, All,
}
use sih.Prelude.Double.{Double, ◌≼◌, IsOrdered, sub}
use sih.Conflict.{ConflictLiteral, literal_holds, literal_refuted, check_from, check_conflict}

module _ {ℓ} {D : Type ℓ} ⦃d : Double D⦄ (lower upper : List D) (tolerance : D) where
  -- Every point of the box is on the literal's side.
  abbrev pub Holds : ConflictLiteral D → Type 0
  Holds l = literal_holds lower upper tolerance l ≡ true

  -- The literal at the position is the only one that does not hold, and is not refuted.
  abbrev pub OnlyOpen : ℕ → List (ConflictLiteral D) → Type 0
  OnlyOpen k [] = ⊥
  OnlyOpen zero (l ∷ ls) =
      (literal_holds lower upper tolerance l ≡ false)
      × (literal_refuted lower upper tolerance l ≡ false)
      × All Holds ls
  OnlyOpen (suc k) (l ∷ ls) = Holds l × OnlyOpen k ls

  check_from-opened :
      (k open_at : ℕ) (ls : List (ConflictLiteral D))
      → All Holds ls
      → check_from lower upper tolerance k (some open_at) ls ≡ (false, some open_at)
  unfolding check_from
  check_from-opened k open_at [] h = refl
  check_from-opened k open_at (l ∷ ls) h = rw h.0 (check_from-opened (suc k) open_at ls h.1)

  -- With one literal open already, the verdict is that literal when all the others hold.
  check_from-opened_only :
      (k open_at j : ℕ) (ls : List (ConflictLiteral D))
      → (check_from lower upper tolerance k (some open_at) ls).1 ≡ some j
      → (j ≡ open_at) × All Holds ls
  unfolding check_from
  check_from-opened_only k open_at j [] h = (ground arith, tt)
  check_from-opened_only k open_at j (l ∷ ls) h =
      ground (arith, check_from-opened_only (suc k) open_at j ls)

  check_from-opened_not :
      (k open_at : ℕ) (ls : List (ConflictLiteral D))
      → (check_from lower upper tolerance k (some open_at) ls).0 ≡ false
  unfolding check_from
  check_from-opened_not k open_at [] = refl
  check_from-opened_not k open_at (l ∷ ls) =
      ground (arith, check_from-opened_not (suc k) open_at ls)

  check_from-infeasible :
      (k : ℕ) (ls : List (ConflictLiteral D))
      → (check_from lower upper tolerance k none ls).0 ≡ true
      → All Holds ls
  unfolding check_from
  check_from-infeasible k [] h = tt
  check_from-infeasible k (l ∷ ls) h =
      ground (arith, check_from-infeasible (suc k) ls, check_from-opened_not (suc k) k ls)

  check_from-holds :
      (k : ℕ) (ls : List (ConflictLiteral D))
      → All Holds ls
      → check_from lower upper tolerance k none ls ≡ (true, none)
  unfolding check_from
  check_from-holds k [] h = refl
  check_from-holds k (l ∷ ls) h = rw h.0 (check_from-holds (suc k) ls h.1)

  check_from-implied :
      (k j : ℕ) (ls : List (ConflictLiteral D))
      → (check_from lower upper tolerance k none ls).1 ≡ some j
      → (i : ℕ) × (j ≡ k + i) × OnlyOpen i ls
  unfolding check_from
  check_from-implied k j [] h = ground arith
  check_from-implied k j (l ∷ ls) h = elim (Bool-cases (literal_holds lower upper tolerance l)) [
    | inl t ↦
        let (i, at, open_at) = check_from-implied (suc k) j ls (rw t at h) in
        (suc i, omega arith, (t, open_at))
    | inr f ↦ elim (Bool-cases (literal_refuted lower upper tolerance l)) [
      | inl t ↦ absurd (ground arith)
      | inr g ↦
          let (at, others) = check_from-opened_only (suc k) k j ls (rw (f, g) at h) in
          (zero, omega arith, (f, g, others))
    ]
  ]

  check_from-open :
      (k i j : ℕ) (ls : List (ConflictLiteral D))
      → j ≡ k + i
      → OnlyOpen i ls
      → check_from lower upper tolerance k none ls ≡ (false, some j)
  unfolding check_from
  check_from-open k i j [] e h = absurd h
  check_from-open k zero j (l ∷ ls) e h =
      let here : j ≡ k = omega arith in
      let (f, g, others) = h in rw (f, g, here) (check_from-opened (suc k) k ls others)
  check_from-open k (suc i) j (l ∷ ls) e h =
      rw h.0 (check_from-open (suc k) i j ls (omega arith) h.1)

  -- The box is called infeasible exactly when every literal of the conflict holds on it, and
  -- literal k is implied exactly when it neither holds nor is refuted and all the others hold.
  pub check_conflict_lem :
      (ls : List (ConflictLiteral D))
      → let verdict = check_conflict lower upper tolerance ls in
        ((verdict.0 ≡ true) ↔ All Holds ls) × ((k : ℕ) → (verdict.1 ≡ some k) ↔ OnlyOpen k ls)
  unfolding check_conflict
  check_conflict_lem ls = (
    (check_from-infeasible 0 ls, λ h. ap (λ v. v.0) (check_from-holds 0 ls h)),
    λ k. (
      λ h.
          let (i, at, open_at) = check_from-implied 0 k ls h in
          let same : k ≡ i = omega arith in rw same open_at,
      λ h. ap (λ v. v.1) (check_from-open 0 k k ls (omega arith) h),
    ),
  )

  -- The literal is true of a point, up to the tolerance.
  abbrev pub true_at : (ℕ → D) → ConflictLiteral D → Bool
  true_at x l =
      if l.is_upper
      then d.le (x l.column) (d.add l.value tolerance)
      else d.le (sub l.value tolerance) (x l.column)

  abbrev pub TrueAt : (ℕ → D) → ConflictLiteral D → Type 0
  TrueAt x l = true_at x l ≡ true

  abbrev pub InBox : (ℕ → D) → ConflictLiteral D → Type 0
  InBox x l =
      (get_or lower l.column d.nought ≼ x l.column) × (x l.column ≼ get_or upper l.column d.nought)

  Holds-TrueAt :
      (x : ℕ → D) (l : ConflictLiteral D) → IsOrdered D → InBox x l → Holds l → TrueAt x l
  unfolding literal_holds
  Holds-TrueAt x l o (above, below) h = elim (Bool-cases l.is_upper) [
    | inl t ↦ rw t (o.le_trans _ _ _ below (rw t at h))
    | inr f ↦ rw f (o.le_trans _ _ _ (rw f at h) above)
  ]

  All-TrueAt :
      (x : ℕ → D) (ls : List (ConflictLiteral D))
      → IsOrdered D
      → All (InBox x) ls
      → All Holds ls
      → All (TrueAt x) ls
  All-TrueAt x [] o box h = tt
  All-TrueAt x (l ∷ ls) o box h = (Holds-TrueAt x l o box.0 h.0, All-TrueAt x ls o box.1 h.1)

  -- The literal at the position is not true of the point.
  abbrev pub FalseAt : (ℕ → D) → ℕ → List (ConflictLiteral D) → Type 0
  FalseAt x k [] = ⊥
  FalseAt x zero (l ∷ ls) = TrueAt x l → ⊥
  FalseAt x (suc k) (l ∷ ls) = FalseAt x k ls

  OnlyOpen-FalseAt :
      (x : ℕ → D) (k : ℕ) (ls : List (ConflictLiteral D))
      → IsOrdered D
      → All (InBox x) ls
      → (All (TrueAt x) ls → ⊥)
      → OnlyOpen k ls
      → FalseAt x k ls
  OnlyOpen-FalseAt x k [] o box broken h = h
  OnlyOpen-FalseAt x zero (l ∷ ls) o box broken (f, g, others) =
      λ t. broken (t, All-TrueAt x ls o box.1 others)
  OnlyOpen-FalseAt x (suc k) (l ∷ ls) o box broken h =
      OnlyOpen-FalseAt x k ls o box.1 (λ rest. broken (Holds-TrueAt x l o box.0 h.0, rest)) h.1

  -- Take a point of the box at which some literal of the conflict is not true up to the tolerance,
  -- as holds of every feasible point. Then the box is not called infeasible, and the literal called
  -- implied, if any, is not true at the point.
  pub check_conflict-Sound :
      (x : ℕ → D) (ls : List (ConflictLiteral D))
      → IsOrdered D
      → All (InBox x) ls
      → (All (TrueAt x) ls → ⊥)
      → let verdict = check_conflict lower upper tolerance ls in
        (verdict.0 ≡ false) × ((k : ℕ) → verdict.1 ≡ some k → FalseAt x k ls)
  check_conflict-Sound x ls o box broken =
      let (infeasible, implied) = check_conflict_lem ls in
      (
        elim (Bool-cases (check_conflict lower upper tolerance ls).0) [
          | inl t ↦ absurd (broken (All-TrueAt x ls o box (infeasible.0 t)))
          | inr f ↦ f
        ],
        λ k h. OnlyOpen-FalseAt x k ls o box broken ((implied k).0 h),
      )
