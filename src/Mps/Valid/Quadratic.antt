-- ===== src/Mps/Valid/Quadratic.antt =====
-- `do_quadratic` of src/io/mps_reader.cpp keeps the parser well formed.
use sih.Prelude.{
  ℕ, ◌<◌, ◌≤◌, ◌≡◌, List, [], ◌∷◌, ◌++◌, arith, inl, inr, Bool-cases, Option-cases, length,
}
use sih.Prelude.Double.{Double, eq}
use sih.Prelude.Outcome.{Holds, Holds-raise_if, Holds-bind, done-Holds, failed-Holds, any-Holds}
use sih.Text.{Bytes}
use sih.Mps.{MpsParser, find_column}
use sih.Mps.Quadratic.{larger, smaller, push_hessian, record_hessian, require_column, do_quadratic}
use sih.Mps.Triplets.{Triplets-mark, Triplets-push}
use sih.Mps.Valid.{IsValid, Lower}
use sih.Mps.Valid.Lookups.{find_column-lt}

Lower-snoc :
    (rows cols : List ℕ) (r c : ℕ)
    → length cols ≡ length rows
    → c ≤ r
    → Lower rows cols
    → Lower (rows ++ r ∷ []) (cols ++ c ∷ [])
Lower-snoc [] [] r c e h v = (h, tt)
Lower-snoc [] (d ∷ cols) r c e h v = absurd (omega arith)
Lower-snoc (q ∷ rows) [] r c e h v = absurd (omega arith)
Lower-snoc (q ∷ rows) (d ∷ cols) r c e h v = (v.0, Lower-snoc rows cols r c (omega arith) h v.1)

larger-lt : (a b n : ℕ) → a < n → b < n → larger a b < n
unfolding larger
larger-lt a b n h k = ground arith

smaller-le : (a b : ℕ) → smaller a b ≤ larger a b
unfolding larger smaller
smaller-le a b = ground arith

module _ {ℓ} {D : Type ℓ} ⦃d : Double D⦄ where
  record_hessian-IsValid :
      (p : MpsParser D) (row col : ℕ) (value : D)
      → row < length p.col_cost
      → col ≤ row
      → IsValid p
      → Holds IsValid (record_hessian p row col value)
  unfolding record_hessian push_hessian
  record_hessian-IsValid p row col value in_n below (rows, cols, entries, hessian, lower, bounds) =
      Holds-raise_if _ _ _ _ (λ fin. Holds-raise_if _ _ _ _ (λ new.
        done-Holds _ _ _ (elim (Bool-cases (eq value d.nought)) [
          | inl t ↦ rw t (rows, cols, entries, Triplets-mark _ hessian, lower, bounds)
          | inr f ↦ rw f (
            rows,
            cols,
            entries,
            Triplets-push row col value in_n (omega arith) (ground arith, f) new hessian,
            Lower-snoc p.quad_row p.quad_col row col hessian.same_cols below lower,
            bounds,
          )
        ])))

  column-lt :
      (p : MpsParser D) (name : Bytes)
      → IsValid p
      → Holds (λ u. u < length p.col_cost) (require_column (find_column p name))
  unfolding require_column
  column-lt p name v = elim (Option-cases (find_column p name)) [
    | inl e ↦ rw e (failed-Holds _ _)
    | inr (u, e) ↦ rw e (done-Holds _ _ _ (find_column-lt p name u v.1 e))
  ]

module _ {ℓ} {D : Type ℓ} ⦃d : Double D⦄ (strtod : Bytes → D × ℕ) where
  pub do_quadratic-IsValid : (p : MpsParser D) → IsValid p → Holds IsValid (do_quadratic strtod p)
  unfolding do_quadratic
  do_quadratic-IsValid p v = Holds-raise_if _ _ _ _ (λ _.
      Holds-bind (λ u. u < length p.col_cost) _ _ _ (column-lt p _ v)
        (λ first _ h.
          Holds-bind (λ u. u < length p.col_cost) _ _ _ (column-lt p _ v)
            (λ second _ k.
              Holds-bind (λ _. Unit {0}) _ _ _ (any-Holds _)
                (λ value _ _.
                  record_hessian-IsValid p (larger first second) (smaller first second) value
                    (larger-lt first second _ h k) (smaller-le first second) v))))
