-- ===== src/Checkpoint/Read.antt =====
-- src/mip/checkpoint.cpp: `read_checkpoint`, its refusals in their order.
use sih.Prelude.{Bool, true, false, not, Option, none, some, List, [], ◌∷◌, if◌then◌else◌}
use sih.Prelude.Double.{Double}
use sih.Prelude.Int.{ℤ_eq}
use sih.Prelude.Outcome.{Outcome, failed, done, ◌>>=◌, ◌>>◌, raise_if}
use sih.Text.{Bytes, bytes, same_bytes}
use sih.Checkpoint.{
  Json, integer, real, text, array, object, CheckpointChange, CheckpointNode, TreeCheckpoint,
  Nlohmann, format, checkpoint_version, find, element, checksum,
}

pub data ReadError : Type 0 where
  cannot_open does_not_parse not_a_tree_checkpoint other_version checksum_differs : ReadError
  non_number_in_incumbent non_number_in_node non_number_in_domain malformed : ReadError

-- An exception of the library, caught at the end.
abbrev pub caught {ℓ} : {A : Type ℓ} → Option A → Outcome ReadError A
caught none = failed malformed
caught (some a) = done a

unfoldable pub for_each {ℓ κ} :
    {A : Type ℓ} {B : Type κ} → (A → Outcome ReadError B) → List A → Outcome ReadError (List B)
unfolding ◌>>=◌
for_each f [] = done []
for_each f (a ∷ rest) = do b ← f a; bs ← for_each f rest; done (b ∷ bs)

module _ {ℓ} {D : Type ℓ} where
  unfoldable pub text_of : Json D → Bytes → Bytes
  text_of j key = elim (find j key) [ some (text t) ↦ t | _ ↦ [] ]

  abbrev pub is_object : Json D → Bool
  is_object (object ms) = true
  is_object _ = false

module _ {ℓ} {D : Type ℓ} ⦃d : Double D⦄ (json : Nlohmann D) where
  -- `none` where the code returns false.
  unfoldable pub read_number : Json D → Option D
  read_number (integer n) = json.get_double (integer n)
  read_number (real x) = json.get_double (real x)
  read_number (text t) =
      if same_bytes t (bytes "inf")
      then some d.infinity
      else if same_bytes t (bytes "-inf")
      then some (d.neg d.infinity)
      else none
  read_number _ = none

  abbrev pub number_or : ReadError → Json D → Outcome ReadError D
  number_or e j = elim (read_number j) [ none ↦ failed e | some x ↦ done x ]

  -- A vector of doubles or of counts: an array, or an exception.
  unfoldable pub vector {κ} :
      {A : Type κ} → (Json D → Option A) → Json D → Outcome ReadError (List A)
  vector get (array js) = for_each (λ j. caught (get j)) (json.elements (array js))
  vector get _ = failed malformed

  unfoldable pub read_change : Json D → Outcome ReadError (CheckpointChange D)
  unfolding ◌>>=◌
  read_change j = do
    c ← caught (element j 0)
    column ← caught (json.get_index c)
    u ← caught (element j 1)
    upper ← caught (json.get_bool u)
    v ← caught (element j 2)
    value ← number_or non_number_in_domain v
    done (record { column = column; is_upper = upper; value = value })

  unfoldable pub read_node : Json D → Outcome ReadError (CheckpointNode D)
  unfolding ◌>>=◌
  read_node j = do
    b ← caught (find j (bytes "bound"))
    bound ← number_or non_number_in_node b
    e ← caught (find j (bytes "estimate"))
    estimate ← number_or non_number_in_node e
    depth_json ← caught (find j (bytes "depth"))
    depth ← caught (json.get_index depth_json)
    changes ← caught (find j (bytes "domain"))
    domain ← for_each read_change (json.elements changes)
    done (record { domain = domain; bound = bound; depth = depth; estimate = estimate })

  -- The conversion of a field of the state.
  unfoldable pub field {κ} :
      {A : Type κ} → Json D → Bytes → (Json D → Outcome ReadError A) → Outcome ReadError A
  unfolding ◌>>=◌
  field s key get = do j ← caught (find s key); get j

  unfoldable pub read_state : Json D → Outcome ReadError (TreeCheckpoint D)
  unfolding ◌>>=◌
  read_state s = do
    num_rows ← field s (bytes "num_rows") (λ j. caught (json.get_index j))
    num_cols ← field s (bytes "num_cols") (λ j. caught (json.get_index j))
    tolerance ← field s (bytes "integrality_tolerance") (λ j. caught (json.get_double j))
    have_incumbent ← field s (bytes "have_incumbent") (λ j. caught (json.get_bool j))
    incumbent ←
        field s (bytes "incumbent_x")
          (λ j. for_each (number_or non_number_in_incumbent) (json.elements j))
    explored ← field s (bytes "nodes_explored") (λ j. caught (json.get_count j))
    pruned ← field s (bytes "nodes_pruned") (λ j. caught (json.get_count j))
    down_sum ← field s (bytes "pseudo_down_sum") (vector json.get_double)
    up_sum ← field s (bytes "pseudo_up_sum") (vector json.get_double)
    down_count ← field s (bytes "pseudo_down_count") (vector json.get_count)
    up_count ← field s (bytes "pseudo_up_count") (vector json.get_count)
    nodes ← field s (bytes "open") (λ j. for_each read_node (json.elements j))
    done (record {
      model_fingerprint = text_of s (bytes "model_fingerprint");
      problem_class = text_of s (bytes "problem_class");
      num_rows = num_rows;
      num_cols = num_cols;
      integrality_tolerance = tolerance;
      have_incumbent = have_incumbent;
      incumbent_x = incumbent;
      nodes_explored = explored;
      nodes_pruned = pruned;
      pseudo_down_sum = down_sum;
      pseudo_up_sum = up_sum;
      pseudo_down_count = down_count;
      pseudo_up_count = up_count;
      open_nodes = nodes;
    })

  -- A version is an integer, and this one; `get<int>` narrows it first.
  unfoldable pub is_this_version : Option (Json D) → Bool
  is_this_version (some (integer n)) = elim (json.get_index (integer n)) [
    | none ↦ false
    | some v ↦ ℤ_eq v checkpoint_version
  ]
  is_this_version _ = false

  unfoldable pub is_checked : Json D → Bool
  is_checked root = elim (find root (bytes "state")) [
    | none ↦ false
    | some state ↦ elim (find root (bytes "checksum")) [
      | none ↦ false
      | some _ ↦ same_bytes (checksum json (json.dump state)) (text_of root (bytes "checksum"))
    ]
  ]

  unfoldable pub read_root : Json D → Outcome ReadError (TreeCheckpoint D)
  unfolding ◌>>=◌ ◌>>◌
  read_root root = do
    raise_if (not (is_object root)) does_not_parse
    raise_if (not (same_bytes (text_of root (bytes "format")) format)) not_a_tree_checkpoint
    raise_if (not (is_this_version (find root (bytes "version")))) other_version
    raise_if (not (is_checked root)) checksum_differs
    state ← caught (find root (bytes "state"))
    read_state state

  -- `none` is a file that cannot be opened.
  unfoldable pub read_checkpoint : Option Bytes → Outcome ReadError (TreeCheckpoint D)
  read_checkpoint none = failed cannot_open
  read_checkpoint (some contents) = elim (json.parse contents) [
    | none ↦ failed does_not_parse
    | some root ↦ read_root root
  ]
