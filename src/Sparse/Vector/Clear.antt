-- ===== src/Sparse/Vector/Clear.antt =====
-- `clear` of a sparse vector: a loop over the pattern.
use sih.Prelude.{
  ℕ, ◌<◌, ◌≡◌, ◌∙◌, Bool, true, false, List, [], ◌∷◌, refl, sym, arith, ◌==◌, if◌then◌else◌, length,
  length-set, get_or, get_or-set, All, All-impl,
}
use sih.Prelude.Double.{Double}
use sih.Sparse.Vector.{SparseVector, unmark, clear_from, clear}
use sih.Sparse.Vector.Replay.{IsVector, contains, held, effect, Operation, Refines}

module _ {ℓ} {D : Type ℓ} ⦃d : Double D⦄ where
  record Cleared (is : List ℕ) (v q : SparseVector D) : Type ℓ where
    no_pattern : q.pattern ≡ []
    same_dimension : q.dimension ≡ v.dimension
    dense_size : length q.dense ≡ length v.dense
    marked_size : length q.marked ≡ length v.marked
    unmarked :
        (j : ℕ)
        → get_or q.marked j false ≡ (if contains j is then false else get_or v.marked j false)

  clear_from-Cleared :
      (is : List ℕ) (v : SparseVector D)
      → All (λ i. i < length v.marked) is
      → Cleared is v (clear_from is v)
  unfolding clear_from unmark
  clear_from-Cleared [] v h = record {
    no_pattern = refl;
    same_dimension = refl;
    dense_size = refl;
    marked_size = refl;
    unmarked = λ j. refl;
  }
  clear_from-Cleared (i ∷ is) v h =
      let size = length-set v.marked i false in
      let r = clear_from-Cleared is (unmark i v) (rw size h.1) in
      record {
        no_pattern = r.no_pattern;
        same_dimension = r.same_dimension;
        dense_size = r.dense_size ∙ length-set v.dense i d.nought;
        marked_size = r.marked_size ∙ size;
        unmarked = λ j.
            r.unmarked j
            ∙ rw (get_or-set v.marked i j false false h.0) (either (contains j is) (i == j) _);
      }
    where
      either :
          (a b c : Bool)
          → (if a then false else if b then false else c)
            ≡ (if (if b then true else a) then false else c)
      either true true c = refl
      either true false c = refl
      either false true c = refl
      either false false c = refl

  pub clear-Refines :
      (v : SparseVector D)
      → IsVector v
      → Refines v (effect v.dimension Operation.clearing (held v)) (clear v)
  unfolding clear
  clear-Refines v w =
      let r =
        clear_from-Cleared v.pattern v
          (All-impl _ _ v.pattern (λ i h. omega (arith, w.marked_size)) w.within) in
      let off : (j : ℕ) → get_or (clear v).marked j false ≡ false =
        λ j. r.unmarked j ∙ rw (w.marks j) (both (contains j v.pattern)) in
      record {
        valid = record {
          dense_size = r.dense_size ∙ w.dense_size ∙ sym r.same_dimension;
          marked_size = r.marked_size ∙ w.marked_size ∙ sym r.same_dimension;
          within = rw (r.no_pattern) tt;
          marks = λ j. rw (r.no_pattern) (off j);
          distinct = rw (r.no_pattern) tt;
        };
        same_dimension = r.same_dimension;
        contents = λ j. rw (off j) refl;
      }
    where
      both : (a : Bool) → (if a then false else a) ≡ false
      both true = refl
      both false = refl
