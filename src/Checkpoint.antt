-- ===== src/Checkpoint.antt =====
-- src/mip/checkpoint.cpp and src/mip/checkpoint.hpp: the tree checkpoint as a JSON document. An object
-- is its members in ascending order of the keys, as the map of `nlohmann::json` keeps them; what that
-- library and `fmt` do is a record of functions, where `none` stands for an exception.
use Prim.Native.String.{String}
use Prim.Native.Nat.{bit_xor}
use sih.Prelude.{
  ℕ, zero, suc, ◌+◌, ◌*◌, ◌%◌, ◌^◌, Bool, true, false, not, ◌&&◌, Option, none, some, List, [], ◌∷◌,
  ◌++◌, map, if◌then◌else◌,
}
use sih.Prelude.Double
use sih.Prelude.Double.{Double, is_finite, is_nan}
use sih.Prelude.Int.{ℤ, pos}
use sih.Text.{Bytes, bytes, same_bytes}
pub mod Read
pub mod Write
pub mod Content
pub mod Plain
pub mod Roundtrip

mutual
  pub data Json {ℓ} (D : Type ℓ) : Type ℓ where
    null : Json D
    boolean : Bool → Json D
    integer : ℤ → Json D
    real : D → Json D
    text : Bytes → Json D
    array : Items D → Json D
    object : Members D → Json D

  pub data Items {ℓ} (D : Type ℓ) : Type ℓ where
    end : Items D
    item : Json D → Items D → Items D

  pub data Members {ℓ} (D : Type ℓ) : Type ℓ where
    close : Members D
    member : Bytes → Json D → Members D → Members D

pub record CheckpointChange {ℓ} (D : Type ℓ) : Type ℓ where
  pub column : ℤ
  pub is_upper : Bool
  pub value : D

pub record CheckpointNode {ℓ} (D : Type ℓ) : Type ℓ where
  pub domain : List (CheckpointChange D)
  pub bound : D
  pub depth : ℤ
  pub estimate : D

pub record TreeCheckpoint {ℓ} (D : Type ℓ) : Type ℓ where
  pub model_fingerprint : Bytes
  pub problem_class : Bytes
  pub num_rows : ℤ
  pub num_cols : ℤ
  pub integrality_tolerance : D
  pub have_incumbent : Bool
  pub incumbent_x : List D
  pub nodes_explored : ℤ
  pub nodes_pruned : ℤ
  pub pseudo_down_sum : List D
  pub pseudo_up_sum : List D
  pub pseudo_down_count : List ℤ
  pub pseudo_up_count : List ℤ
  pub open_nodes : List (CheckpointNode D)

-- `dump()`, `dump(1)`, `parse`, the conversions `get<T>`, a range-based `for`, and "{:016x}".
pub record Nlohmann {ℓ} (D : Type ℓ) : Type ℓ where
  pub dump : Json D → Bytes
  pub dump_indented : Json D → Bytes
  pub parse : Bytes → Option (Json D)
  pub get_index : Json D → Option ℤ
  pub get_count : Json D → Option ℤ
  pub get_double : Json D → Option D
  pub get_bool : Json D → Option Bool
  pub elements : Json D → List (Json D)
  pub hexadecimal : ℕ → Bytes

abbrev pub format : Bytes
format = bytes "sankhya-tree-checkpoint"

-- `kCheckpointVersion`
abbrev pub checkpoint_version : ℤ
checkpoint_version = pos 1

-- FNV-1a in 64 bits.
unfoldable pub hash_from : ℕ → Bytes → ℕ
hash_from hash [] = hash
hash_from hash (c ∷ cs) = hash_from (bit_xor hash c * 1_099_511_628_211 % 2 ^ 64) cs

module _ {ℓ} {D : Type ℓ} where
  unfoldable pub items_of : List (Json D) → Items D
  items_of [] = end
  items_of (j ∷ js) = item j (items_of js)

  -- A member of an object; `none` where it is missing, or where the value is no object.
  abbrev pub find_member : Bytes → Members D → Option (Json D)
  find_member key close = none
  find_member key (member name j ms) =
      let later = find_member key ms in if same_bytes name key then some j else later

  abbrev pub find : Json D → Bytes → Option (Json D)
  find (object ms) key = find_member key ms
  find _ key = none

  abbrev pub item_at : ℕ → Items D → Option (Json D)
  item_at i end = none
  item_at zero (item j js) = some j
  item_at (suc i) (item j js) = item_at i js

  -- `at(i)` of an array
  abbrev pub element : Json D → ℕ → Option (Json D)
  element (array js) i = item_at i js
  element _ i = none

  abbrev integers : List ℤ → Json D
  integers ns = array (items_of (map integer ns))

  abbrev reals : List D → Json D
  reals xs = array (items_of (map real xs))

module _ {ℓ} {D : Type ℓ} ⦃d : Double D⦄ where
  unfoldable pub number : D → Json D
  number v =
      if is_finite v
      then real v
      else if is_nan v
      then text (bytes "nan")
      else if d.lt d.nought v
      then text (bytes "inf")
      else text (bytes "-inf")

  unfoldable pub change_of : CheckpointChange D → Json D
  change_of c =
      array (item (integer c.column) (item (boolean c.is_upper) (item (number c.value) end)))

  unfoldable pub node_of : CheckpointNode D → Json D
  node_of n = object (
      member (bytes "bound") (number n.bound) (
        member (bytes "depth") (integer n.depth) (
          member (bytes "domain") (array (items_of (map change_of n.domain)))
            (member (bytes "estimate") (number n.estimate) close))))

  unfoldable pub state_of : TreeCheckpoint D → Json D
  state_of c = object (
      member (bytes "have_incumbent") (boolean c.have_incumbent) (
        member (bytes "incumbent_x") (array (items_of (map number c.incumbent_x))) (
          member (bytes "integrality_tolerance") (real c.integrality_tolerance) (
            member (bytes "model_fingerprint") (text c.model_fingerprint) (
              member (bytes "nodes_explored") (integer c.nodes_explored) (
                member (bytes "nodes_pruned") (integer c.nodes_pruned) (
                  member (bytes "num_cols") (integer c.num_cols) (
                    member (bytes "num_rows") (integer c.num_rows) (
                      member (bytes "open") (array (items_of (map node_of c.open_nodes))) (
                        member (bytes "problem_class") (text c.problem_class) (
                          member (bytes "pseudo_down_count") (integers c.pseudo_down_count) (
                            member (bytes "pseudo_down_sum") (reals c.pseudo_down_sum) (
                              member (bytes "pseudo_up_count") (integers c.pseudo_up_count) (
                                member (bytes "pseudo_up_sum") (reals c.pseudo_up_sum)
                                  close))))))))))))))

module _ {ℓ} {D : Type ℓ} ⦃d : Double D⦄ (json : Nlohmann D) where
  unfoldable pub checksum : Bytes → Bytes
  checksum contents = json.hexadecimal (hash_from 1_469_598_103_934_665_603 contents)

  -- The whole document, for a build of the given version and commit.
  unfoldable pub root_of : Bytes → Bytes → TreeCheckpoint D → Json D
  root_of version commit c =
      let state = state_of c in
      object (
        member (bytes "checksum") (text (checksum (json.dump state))) (
          member (bytes "format") (text format) (
            member (bytes "sankhya")
              (object (
                member (bytes "commit") (text commit)
                  (member (bytes "version") (text version) close)))
              (member (bytes "state") state
                (member (bytes "version") (integer checkpoint_version) close)))))
