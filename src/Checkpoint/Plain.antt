-- ===== src/Checkpoint/Plain.antt =====
-- The document of a checkpoint with finite sums and tolerance has only finite numbers.
use sih.Prelude.{Bool, true, false, List, [], ◌∷◌, map, All, inl, inr, Bool-cases, if◌then◌else◌}
use sih.Prelude.Double.{Double, is_finite, is_nan}
use sih.Prelude.Sort.{All-of_Mem, All-map}
use sih.Text.{Bytes, bytes}
use sih.Checkpoint.{
  Json, integer, real, text, CheckpointChange, CheckpointNode, TreeCheckpoint, Nlohmann, items_of,
  number, change_of, node_of, state_of, root_of,
}
use sih.Checkpoint.Content.{IsPlain, ArePlain, AreMembersPlain, IsFinite, IsWritable}

module _ {ℓ} {D : Type ℓ} ⦃d : Double D⦄ where
  number-IsPlain : (x : D) → IsPlain (number x)
  unfolding number IsPlain
  number-IsPlain x = elim (Bool-cases (is_finite x)) [
    | inl t ↦ rw t t
    | inr f ↦ rw f (special (is_nan x) (d.lt d.nought x))
  ]
    where
      special :
          (a b : Bool)
          → IsPlain {D = D} (
              if a
              then text (bytes "nan")
              else if b
              then text (bytes "inf")
              else text (bytes "-inf"))
      special true b = tt
      special false true = tt
      special false false = tt

  items_of-ArePlain : (js : List (Json D)) → All IsPlain js → ArePlain (items_of js)
  unfolding IsPlain ArePlain items_of
  items_of-ArePlain [] h = tt
  items_of-ArePlain (j ∷ js) h = (h.0, items_of-ArePlain js h.1)

  map-ArePlain {κ} :
      {A : Type κ} (f : A → Json D) (xs : List A)
      → All (λ x. IsPlain (f x)) xs
      → ArePlain (items_of (map f xs))
  map-ArePlain f xs h = items_of-ArePlain (map f xs) (All-map f IsPlain xs h)

  change_of-IsPlain : (c : CheckpointChange D) → IsPlain (change_of c)
  unfolding change_of IsPlain ArePlain
  change_of-IsPlain c = (tt, (tt, (number-IsPlain c.value, tt)))

  node_of-IsPlain : (n : CheckpointNode D) → IsPlain (node_of n)
  unfolding node_of IsPlain AreMembersPlain
  node_of-IsPlain n = (
    number-IsPlain n.bound,
    (
      tt,
      (
        map-ArePlain change_of n.domain (All-of_Mem _ n.domain (λ c m. change_of-IsPlain c)),
        (number-IsPlain n.estimate, tt),
      ),
    ),
  )

  reals-ArePlain : (xs : List D) → All IsFinite xs → ArePlain (items_of (map real xs))
  unfolding IsPlain
  reals-ArePlain xs h = map-ArePlain real xs h

  state_of-IsPlain :
      (c : TreeCheckpoint D)
      → IsFinite c.integrality_tolerance
      → All IsFinite c.pseudo_down_sum
      → All IsFinite c.pseudo_up_sum
      → IsPlain (state_of c)
  unfolding state_of IsPlain AreMembersPlain
  state_of-IsPlain c t down up =
      let incumbent =
        map-ArePlain number c.incumbent_x (All-of_Mem _ c.incumbent_x (λ x m. number-IsPlain x)) in
      let nodes =
        map-ArePlain node_of c.open_nodes (All-of_Mem _ c.open_nodes (λ n m. node_of-IsPlain n)) in
      (
        tt,
        (
          incumbent,
          (
            t,
            (
              tt,
              (
                tt,
                (
                  tt,
                  (
                    tt,
                    (
                      tt,
                      (
                        nodes,
                        (
                          tt,
                          (
                            map-ArePlain integer c.pseudo_down_count
                                (All-of_Mem _ c.pseudo_down_count (λ n m. tt)),
                            (
                              reals-ArePlain c.pseudo_down_sum down,
                              (
                                map-ArePlain integer c.pseudo_up_count
                                    (All-of_Mem _ c.pseudo_up_count (λ n m. tt)),
                                (reals-ArePlain c.pseudo_up_sum up, tt),
                              ),
                            ),
                          ),
                        ),
                      ),
                    ),
                  ),
                ),
              ),
            ),
          ),
        ),
      )

  pub root_of-IsPlain :
      (json : Nlohmann D) (version commit : Bytes) (c : TreeCheckpoint D)
      → IsWritable c
      → IsPlain (root_of json version commit c)
  unfolding root_of IsPlain AreMembersPlain
  root_of-IsPlain json version commit c w =
      (tt, (tt, ((tt, (tt, tt)), (state_of-IsPlain c w.tolerance w.down_sum w.up_sum, (tt, tt)))))
