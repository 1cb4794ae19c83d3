-- ===== src/Sparse/Vector.antt =====
-- The class SparseVector of src/la/sparse.cpp and include/sankhya/sparse.hpp: a dense array, a mark for
-- each index, and the list of the marked ones. The range of an index is a hypothesis of the theorems.
use sih.Prelude.{
  ℕ, zero, suc, Bool, true, false, List, [], ◌∷◌, ◌++◌, if◌then◌else◌, get_or, set, replicate, drop,
  length,
}
use sih.Prelude.Double.{Double}
pub mod Replay
pub mod Clear
pub mod Compress
pub mod Gather
pub mod Scatter

pub record SparseVector {ℓ} (D : Type ℓ) : Type ℓ where
  pub dimension : ℕ
  pub dense : List D
  pub marked : List Bool
  pub pattern : List ℕ

module _ {ℓ} {D : Type ℓ} ⦃d : Double D⦄ where
  unfoldable pub resize : ℕ → SparseVector D
  resize dimension = record {
    dimension = dimension;
    dense = replicate dimension d.nought;
    marked = replicate dimension false;
    pattern = [];
  }

  -- An index is zeroed and no longer marked.
  unfoldable pub unmark : ℕ → SparseVector D → SparseVector D
  unmark i v = record v { dense = set v.dense i d.nought; marked = set v.marked i false }

  unfoldable pub clear_from : List ℕ → SparseVector D → SparseVector D
  clear_from [] v = record v { pattern = [] }
  clear_from (i ∷ is) v = clear_from is (unmark i v)

  unfoldable pub clear : SparseVector D → SparseVector D
  clear v = clear_from v.pattern v

  -- `operator[]`
  unfoldable pub value_at : SparseVector D → ℕ → D
  value_at v i = if get_or v.marked i false then get_or v.dense i d.nought else d.nought

  unfoldable pub add : ℕ → D → SparseVector D → SparseVector D
  add i value v =
      if get_or v.marked i false
      then record v { dense = set v.dense i (d.add (get_or v.dense i d.nought) value) }
      else record v {
        marked = set v.marked i true;
        dense = set v.dense i value;
        pattern = v.pattern ++ i ∷ [];
      }

  unfoldable pub set_value : ℕ → D → SparseVector D → SparseVector D
  set_value i value v =
      let touched =
        if get_or v.marked i false
        then v
        else record v { marked = set v.marked i true; pattern = v.pattern ++ i ∷ [] } in
      record touched { dense = set touched.dense i value }

  -- An entry that `compress` and `gather_from_dense` keep.
  unfoldable pub is_kept : D → D → Bool
  is_kept drop_tol value = d.le drop_tol (d.abs value)

  -- The pattern is compacted in its own array, which the list of the kept indices stands for.
  unfoldable pub compress_from : D → List ℕ → SparseVector D → SparseVector D
  compress_from drop_tol [] v = record v { pattern = [] }
  compress_from drop_tol (i ∷ is) v =
      let keep = is_kept drop_tol (get_or v.dense i d.nought) in
      let rest = compress_from drop_tol is (if keep then v else unmark i v) in
      if keep then record rest { pattern = i ∷ rest.pattern } else rest

  unfoldable pub compress : D → SparseVector D → SparseVector D
  compress drop_tol v = compress_from drop_tol v.pattern v

  unfoldable pub scatter_from : List ℕ → List D → List D → List D
  scatter_from [] dense out = out
  scatter_from (i ∷ is) dense out = scatter_from is dense (set out i (get_or dense i d.nought))

  unfoldable pub scatter_to_dense : SparseVector D → List D → List D
  scatter_to_dense v out =
      scatter_from v.pattern v.dense (replicate v.dimension d.nought ++ drop v.dimension out)

  -- The remaining `n` indices from `i` on.
  unfoldable pub gather_from : D → ℕ → ℕ → List D → SparseVector D → SparseVector D
  gather_from drop_tol i zero values v = v
  gather_from drop_tol i (suc n) values v =
      let value = get_or values i d.nought in
      gather_from drop_tol (suc i) n values
        (if is_kept drop_tol value then set_value i value v else v)

  unfoldable pub gather_from_dense : D → List D → SparseVector D → SparseVector D
  gather_from_dense drop_tol values v = gather_from drop_tol 0 v.dimension values (clear v)
