-- ===== src/Checkpoint/Content.antt =====
-- What a checkpoint must hold to be written and read back, and what the JSON library promises.
use sih.Prelude.{◌≡◌, ◌⊎◌, Bool, true, false, some, List, All}
use sih.Prelude.Double.{Double, is_finite, is_nan}
use sih.Prelude.Int.{ℤ, pos, negsuc, ◌≤ℤ◌}
use sih.Checkpoint.{
  Json, boolean, integer, real, array, object, Items, end, item, Members, close, member,
  CheckpointNode, TreeCheckpoint, Nlohmann, items_of,
}

-- An `Index` and a `Count`.
abbrev pub IsIndex : ℤ → Type 0
IsIndex n = (negsuc 2_147_483_647 ≤ℤ n) × (n ≤ℤ pos 2_147_483_647)

abbrev pub IsCount : ℤ → Type 0
IsCount n = (negsuc 9_223_372_036_854_775_807 ≤ℤ n) × (n ≤ℤ pos 9_223_372_036_854_775_807)

-- The infinities are neither finite nor NaN, and have their signs.
pub record HasInfinities {ℓ} (D : Type ℓ) ⦃d : Double D⦄ : Type ℓ where
  pub infinity_infinite : is_finite d.infinity ≡ false
  pub infinity_number : is_nan d.infinity ≡ false
  pub infinity_positive : d.lt d.nought d.infinity ≡ true
  pub negative_infinite : is_finite (d.neg d.infinity) ≡ false
  pub negative_number : is_nan (d.neg d.infinity) ≡ false
  pub negative_negative : d.lt d.nought (d.neg d.infinity) ≡ false

module _ {ℓ} {D : Type ℓ} ⦃d : Double D⦄ where
  -- Every number of the document is finite, so that its text is a number.
  unfoldable mutual
    pub IsPlain : Json D → Type 0
    IsPlain (real x) = is_finite x ≡ true
    IsPlain (array js) = ArePlain js
    IsPlain (object ms) = AreMembersPlain ms
    IsPlain _ = Unit

    pub ArePlain : Items D → Type 0
    ArePlain end = Unit
    ArePlain (item j js) = IsPlain j × ArePlain js

    pub AreMembersPlain : Members D → Type 0
    AreMembersPlain close = Unit
    AreMembersPlain (member key j ms) = IsPlain j × AreMembersPlain ms

  abbrev pub IsFinite : D → Type 0
  IsFinite x = is_finite x ≡ true

  -- Finite, or one of the infinities: no NaN.
  abbrev pub IsValue : D → Type ℓ
  IsValue x = (is_finite x ≡ true) ⊎ ((x ≡ d.infinity) ⊎ (x ≡ d.neg d.infinity))

  pub record IsWritableNode (n : CheckpointNode D) : Type ℓ where
    pub bound : IsValue n.bound
    pub estimate : IsValue n.estimate
    pub depth : IsIndex n.depth
    pub domain : All (λ c. IsIndex c.column × IsValue c.value) n.domain

  pub record IsWritable (c : TreeCheckpoint D) : Type ℓ where
    pub num_rows : IsIndex c.num_rows
    pub num_cols : IsIndex c.num_cols
    pub tolerance : IsFinite c.integrality_tolerance
    pub incumbent : All IsValue c.incumbent_x
    pub explored : IsCount c.nodes_explored
    pub pruned : IsCount c.nodes_pruned
    pub down_sum : All IsFinite c.pseudo_down_sum
    pub up_sum : All IsFinite c.pseudo_up_sum
    pub down_count : All IsCount c.pseudo_down_count
    pub up_count : All IsCount c.pseudo_up_count
    pub nodes : All IsWritableNode c.open_nodes

  -- A text that was printed from a document of finite numbers parses to it.
  abbrev pub IsPrinted : Nlohmann D → Json D → Type ℓ
  IsPrinted json j = IsPlain j → json.parse (json.dump_indented j) ≡ some j

  pub record IsNlohmann (json : Nlohmann D) : Type ℓ where
    pub get_index-integer : (n : ℤ) → IsIndex n → json.get_index (integer n) ≡ some n
    pub get_count-integer : (n : ℤ) → IsCount n → json.get_count (integer n) ≡ some n
    pub get_double-real : (x : D) → json.get_double (real x) ≡ some x
    pub get_bool-boolean : (b : Bool) → json.get_bool (boolean b) ≡ some b
    pub elements-array : (js : List (Json D)) → json.elements (array (items_of js)) ≡ js
