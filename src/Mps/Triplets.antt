-- ===== src/Mps/Triplets.antt =====
-- The matrix entries that src/io/mps_reader.cpp collects in parallel arrays, behind a guard of keys.
use sih.Prelude.{
  ℕ, ◌≤◌, ◌<◌, ◌≡◌, ◌≢◌, true, false, List, [], ◌∷◌, ◌++◌, refl, ap, arith, length, length-append,
  All, All-append, All-impl, Pairwise, Pairwise-append,
}
use sih.Prelude.Double.{Double, is_finite, eq}
use sih.Mps.{contains, entry_key}

abbrev pub keys : List ℕ → List ℕ → List ℕ
keys [] cols = []
keys (r ∷ rows) [] = []
keys (r ∷ rows) (c ∷ cols) = entry_key r c ∷ keys rows cols

keys-append :
    (rows cols : List ℕ) (r c : ℕ)
    → length cols ≡ length rows
    → keys (rows ++ r ∷ []) (cols ++ c ∷ []) ≡ keys rows cols ++ entry_key r c ∷ []
keys-append [] [] r c h = refl
keys-append [] (d ∷ cols) r c h = absurd (omega arith)
keys-append (q ∷ rows) [] r c h = absurd (omega arith)
keys-append (q ∷ rows) (d ∷ cols) r c h =
    ap (λ l. entry_key q d ∷ l) (keys-append rows cols r c (omega arith))

-- What the guard has not seen is a new place.
fresh :
    (seen : List ℕ) (key : ℕ) (ks : List ℕ)
    → contains seen key ≡ false
    → All (λ k. contains seen k ≡ true) ks
    → All (λ k. All (λ b. k ≢ b) (key ∷ [])) ks
fresh seen key [] h g = tt
fresh seen key (k ∷ ks) h g =
    let new : k ≢ key =
      λ e. let f : contains seen key ≡ true = rw e at g.0 in absurd (ground arith) in
    ((new, tt), fresh seen key ks h g.1)

guard :
    (seen : List ℕ) (key : ℕ) (ks : List ℕ)
    → All (λ k. contains seen k ≡ true) ks
    → All (λ k. contains (key ∷ seen) k ≡ true) ks
guard seen key ks = All-impl _ _ ks (λ k b. ground arith)

module _ {ℓ} {D : Type ℓ} ⦃d : Double D⦄ where
  -- A coefficient that is stored.
  abbrev pub IsCoefficient : D → Type 0
  IsCoefficient v = (is_finite v ≡ true) × (eq v d.nought ≡ false)

  -- Three parallel arrays of entries of an `m` by `n` matrix, no two at one place, whose keys are
  -- in the guard.
  pub record Triplets (m n : ℕ) (rows cols : List ℕ) (values : List D) (seen : List ℕ)
      : Type ℓ where
    pub same_cols : length cols ≡ length rows
    pub same_values : length values ≡ length rows
    pub in_rows : All (λ r. r < m) rows
    pub in_cols : All (λ c. c < n) cols
    pub coefficients : All IsCoefficient values
    pub distinct : Pairwise (λ a b. a ≢ b) (keys rows cols)
    pub guarded : All (λ k. contains seen k ≡ true) (keys rows cols)

  module _ {m n : ℕ} {rows cols : List ℕ} {values : List D} {seen : List ℕ} where
    pub Triplets-grow :
        (m' n' : ℕ)
        → m ≤ m'
        → n ≤ n'
        → Triplets m n rows cols values seen
        → Triplets m' n' rows cols values seen
    Triplets-grow m' n' h k t = record {
      same_cols = t.same_cols;
      same_values = t.same_values;
      in_rows = All-impl _ _ rows (λ r b. omega (arith, h, b)) t.in_rows;
      in_cols = All-impl _ _ cols (λ c b. omega (arith, k, b)) t.in_cols;
      coefficients = t.coefficients;
      distinct = t.distinct;
      guarded = t.guarded;
    }

    pub Triplets-mark :
        (key : ℕ) → Triplets m n rows cols values seen → Triplets m n rows cols values (key ∷ seen)
    Triplets-mark key t = record {
      same_cols = t.same_cols;
      same_values = t.same_values;
      in_rows = t.in_rows;
      in_cols = t.in_cols;
      coefficients = t.coefficients;
      distinct = t.distinct;
      guarded = guard seen key (keys rows cols) t.guarded;
    }

    pub Triplets-push :
        (r c : ℕ) (v : D)
        → r < m
        → c < n
        → IsCoefficient v
        → contains seen (entry_key r c) ≡ false
        → Triplets m n rows cols values seen
        → Triplets m n (rows ++ r ∷ []) (cols ++ c ∷ []) (values ++ v ∷ []) (entry_key r c ∷ seen)
    Triplets-push r c v in_m in_n coefficient new t = record {
      same_cols =
          omega (arith, length-append cols (c ∷ []), length-append rows (r ∷ []), t.same_cols);
      same_values =
          omega (arith, length-append values (v ∷ []), length-append rows (r ∷ []), t.same_values);
      in_rows = All-append _ rows _ t.in_rows (in_m, tt);
      in_cols = All-append _ cols _ t.in_cols (in_n, tt);
      coefficients = All-append _ values _ t.coefficients (coefficient, tt);
      distinct =
          rw (keys-append rows cols r c t.same_cols) (
            Pairwise-append _ (keys rows cols) _ t.distinct (tt, tt)
              (fresh seen _ _ new t.guarded));
      guarded =
          rw (keys-append rows cols r c t.same_cols)
            (All-append _ (keys rows cols) _ (guard seen _ _ t.guarded) (ground arith, tt));
    }
