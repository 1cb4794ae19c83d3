-- ===== src/Checkpoint/Roundtrip.antt =====
-- Reading a checkpoint that was written gives it back.
use sih.Prelude.{
  ◌≡◌, ◌∙◌, Option, none, some, List, [], ◌∷◌, map, refl, ap, arith, All, All-impl, inl, inr,
}
use sih.Prelude.Double.{Double}
use sih.Prelude.Int.{ℤ}
use sih.Prelude.Outcome.{Outcome, done, ◌>>=◌, ◌>>◌, raise_if}
use sih.Prelude.Sort.{All-of_Mem}
use sih.Checkpoint.Write.{System, Files, write_checkpoint}
use sih.Checkpoint.Write.Atomic.{same_bytes_refl, write_checkpoint-IsAtomic}
use sih.Text.{Bytes, same_bytes}
use sih.Checkpoint.{
  Json, integer, real, array, CheckpointChange, CheckpointNode, TreeCheckpoint, Nlohmann, items_of,
  number, change_of, node_of, state_of, root_of, checksum, checkpoint_version, integers, reals,
}
use sih.Checkpoint.Content.{
  IsIndex, IsCount, IsValue, IsWritableNode, IsWritable, HasInfinities, IsNlohmann, IsPrinted,
}
use sih.Checkpoint.Plain.{root_of-IsPlain}
use sih.Checkpoint.Read.{
  ReadError, non_number_in_incumbent, non_number_in_domain, non_number_in_node, caught, for_each,
  text_of, read_number, number_or, vector, read_change, read_node, field, read_state,
  is_this_version, is_checked, read_root, read_checkpoint,
}

for_each-map {ℓ κ} :
    {A : Type ℓ} {B : Type κ} (f : A → Outcome ReadError B) (g : B → A) (bs : List B)
    → All (λ b. f (g b) ≡ done b) bs
    → for_each f (map g bs) ≡ done bs
unfolding for_each ◌>>=◌
for_each-map f g [] h = refl
for_each-map f g (b ∷ bs) h = rw (h.0, for_each-map f g bs h.1) refl

module _ {ℓ} {D : Type ℓ} ⦃d : Double D⦄ (inf : HasInfinities D) (json : Nlohmann D)
    (lib : IsNlohmann json) where
  read_number-number : (x : D) → IsValue x → read_number json (number x) ≡ some x
  unfolding read_number number same_bytes
  read_number-number x (inl h) = rw h (lib.get_double-real x)
  read_number-number x (inr (inl e)) =
      rw (e, inf.infinity_infinite, inf.infinity_number, inf.infinity_positive) refl
  read_number-number x (inr (inr e)) =
      rw (e, inf.negative_infinite, inf.negative_number, inf.negative_negative) refl

  number_or-number : (e : ReadError) (x : D) → IsValue x → number_or json e (number x) ≡ done x
  number_or-number e x h = rw (read_number-number x h, number_or) refl

  read_change-change_of :
      (c : CheckpointChange D)
      → IsIndex c.column × IsValue c.value
      → read_change json (change_of c) ≡ done c
  unfolding read_change change_of ◌>>=◌
  read_change-change_of c (h, k) =
      rw
        (
          lib.get_index-integer c.column h,
          lib.get_bool-boolean c.is_upper,
          number_or-number non_number_in_domain c.value k,
        )
        refl

  read_node-node_of :
      (n : CheckpointNode D) → IsWritableNode n → read_node json (node_of n) ≡ done n
  unfolding read_node node_of ◌>>=◌ same_bytes
  read_node-node_of n h =
      let domain =
        for_each-map (read_change json) change_of n.domain
          (All-impl _ _ n.domain (λ c k. read_change-change_of c k) h.domain) in
      rw
        (
          number_or-number non_number_in_node n.bound h.bound,
          number_or-number non_number_in_node n.estimate h.estimate,
          lib.get_index-integer n.depth h.depth,
          lib.elements-array (map change_of n.domain),
          domain,
        )
        refl

  vector-map {κ} :
      {A : Type κ} (get : Json D → Option A) (g : A → Json D) (xs : List A)
      → All (λ x. get (g x) ≡ some x) xs
      → vector json get (array (items_of (map g xs))) ≡ done xs
  unfolding vector
  vector-map get g xs h =
      rw (lib.elements-array (map g xs))
        (for_each-map (λ j. caught (get j)) g xs (All-impl _ _ xs (λ x e. rw e refl) h))

  read_state-state_of :
      (c : TreeCheckpoint D) → IsWritable c → read_state json (state_of c) ≡ done c
  unfolding read_state state_of field text_of ◌>>=◌ same_bytes
  read_state-state_of c w =
      let incumbent =
        for_each-map (number_or json non_number_in_incumbent) number c.incumbent_x
          (All-impl _ _ c.incumbent_x (number_or-number non_number_in_incumbent) w.incumbent) in
      let nodes =
        for_each-map (read_node json) node_of c.open_nodes
          (All-impl _ _ c.open_nodes read_node-node_of w.nodes) in
      let doubles : (xs : List D) → vector json json.get_double (reals xs) ≡ done xs =
        λ xs. vector-map json.get_double real xs (All-of_Mem _ xs (λ x m. lib.get_double-real x)) in
      let counts : (ns : List ℤ)
          → All IsCount ns
          → vector json json.get_count (integers ns) ≡ done ns =
        λ ns h. vector-map json.get_count integer ns (All-impl _ _ ns lib.get_count-integer h) in
      rw
        (
          lib.get_index-integer c.num_rows w.num_rows,
          lib.get_index-integer c.num_cols w.num_cols,
          lib.get_double-real c.integrality_tolerance,
          lib.get_bool-boolean c.have_incumbent,
          lib.elements-array (map number c.incumbent_x),
          incumbent,
          lib.get_count-integer c.nodes_explored w.explored,
          lib.get_count-integer c.nodes_pruned w.pruned,
          doubles c.pseudo_down_sum,
          doubles c.pseudo_up_sum,
          counts c.pseudo_down_count w.down_count,
          counts c.pseudo_up_count w.up_count,
          lib.elements-array (map node_of c.open_nodes),
          nodes,
        )
        refl

  read_root-root_of :
      (version commit : Bytes) (c : TreeCheckpoint D)
      → IsWritable c
      → read_root json (root_of json version commit c) ≡ done c
  unfolding read_root root_of is_this_version is_checked text_of ◌>>=◌ ◌>>◌ raise_if same_bytes
  read_root-root_of version commit c w =
      rw
        (
          lib.get_index-integer checkpoint_version (omega arith, omega arith),
          same_bytes_refl (checksum json (json.dump (state_of c))),
        )
        (read_state-state_of c w)

  read_checkpoint-parse :
      (contents : Bytes) (root : Json D)
      → json.parse contents ≡ some root
      → read_checkpoint json (some contents) ≡ read_root json root
  unfolding read_checkpoint
  read_checkpoint-parse contents root h = rw (h, read_checkpoint) refl

  -- A checkpoint without NaN, whose sums and tolerance are finite and whose numbers are in range, is read
  -- back as it was whenever the write reports no error. The library of JSON is assumed to parse what it
  -- prints and to convert each kind of value back.
  pub read_checkpoint-write_checkpoint :
      (version commit : Bytes) (system : System) (path : Bytes) (c : TreeCheckpoint D)
      (files : Files)
      → IsPrinted json (root_of json version commit c)
      → IsWritable c
      → (write_checkpoint json version commit system path c files).error ≡ none
      → read_checkpoint json ((write_checkpoint json version commit system path c files).files path)
        ≡ done c
  read_checkpoint-write_checkpoint version commit system path c files p h e =
      let root = root_of json version commit c in
      let (there, gone) =
        (write_checkpoint-IsAtomic json version commit system path c files).success e in
      ap (read_checkpoint json) there
      ∙ read_checkpoint-parse (json.dump_indented root) root
          (p (root_of-IsPlain json version commit c h))
      ∙ read_root-root_of version commit c h
