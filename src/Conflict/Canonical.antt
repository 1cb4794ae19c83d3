-- ===== src/Conflict/Canonical.antt =====
-- The canonical form says what the literals say, once for each column and direction.
use sih.Prelude.{
  ◌≡◌, ◌↔◌, Bool, true, false, List, [], ◌∷◌, arith, Bool-cases, inl, inr, get_or, All, Pairwise,
  if◌then◌else◌, All-impl,
}
use sih.Prelude.Double.{Double, ◌≼◌, IsNumber, IsOrdered}
use sih.Prelude.Double
use sih.Conflict.{ConflictLiteral, key_less, same_slot, tighter, tighten, canonical_onto, canonical}

module _ {ℓ} {D : Type ℓ} where
  key_less_trans :
      (a b c : ConflictLiteral D) → key_less a b ≡ true → key_less b c ≡ true → key_less a c ≡ true
  unfolding key_less
  key_less_trans a b c h k = ground arith

  key_less_total :
      (a b : ConflictLiteral D) → same_slot b a ≡ false → key_less a b ≡ false → key_less b a ≡ true
  unfolding key_less same_slot
  key_less_total a b h k = ground arith

  same_slot_fields :
      (a b : ConflictLiteral D)
      → same_slot a b ≡ true
      → (a.column ≡ b.column) × (a.is_upper ≡ b.is_upper)
  unfolding same_slot
  same_slot_fields a b h = ground arith

module _ {ℓ} {D : Type ℓ} ⦃d : Double D⦄ where
  -- Strictly ascending keys: column, then direction, so one literal for each.
  abbrev pub IsCanonical : List (ConflictLiteral D) → Type 0
  IsCanonical = Pairwise (λ a b. key_less a b ≡ true)

  abbrev pub HasNumbers : List (ConflictLiteral D) → Type 0
  HasNumbers = All (λ l. IsNumber l.value)

  -- The point meets the literal, at the value that it has in the literal's column.
  abbrev pub Meets : List D → ConflictLiteral D → Type 0
  Meets x l =
      (if l.is_upper
        then d.le (get_or x l.column d.nought) l.value
        else d.le l.value (get_or x l.column d.nought))
      ≡ true

  tighten-All {κ} :
      (P : ConflictLiteral D → Type κ) (l : ConflictLiteral D) (ms : List (ConflictLiteral D))
      → P l
      → ((m : ConflictLiteral D) (v : D) → P m → P (record m { value = v }))
      → All P ms
      → All P (tighten l ms)
  unfolding tighten
  tighten-All P l [] h f hs = (h, tt)
  tighten-All P l (m ∷ ms) h f hs = elim (Bool-cases (same_slot m l)) [
    | inl s ↦ rw s (f m _ hs.0, hs.1)
    | inr s ↦ elim (Bool-cases (key_less l m)) [
      | inl k ↦ rw (s, k) (h, hs)
      | inr k ↦ rw (s, k) (hs.0, tighten-All P l ms h f hs.1)
    ]
  ]

  tighten-IsCanonical :
      (l : ConflictLiteral D) (ms : List (ConflictLiteral D))
      → IsCanonical ms
      → IsCanonical (tighten l ms)
  unfolding tighten
  tighten-IsCanonical l [] h = (tt, tt)
  tighten-IsCanonical l (m ∷ ms) h = elim (Bool-cases (same_slot m l)) [
    | inl s ↦ rw s (unfold key_less in h)
    | inr s ↦ elim (Bool-cases (key_less l m)) [
      | inl k ↦ rw (s, k) ((k, All-impl _ _ ms (λ a. key_less_trans l m a k) h.0), h)
      | inr k ↦
          rw (s, k)
            (
              tighten-All (λ a. key_less m a ≡ true) l ms (key_less_total l m s k)
                  (λ a v p. unfold key_less in p) h.0,
              tighten-IsCanonical l ms h.1,
            )
    ]
  ]

  module _ (laws : IsOrdered D) where
    open laws use {numbers_of_le, le_trans, le_total, lt-eq-not-le}

    min_iff : (x a b : D) → IsNumber a → IsNumber b → (x ≼ Double.min a b) ↔ ((x ≼ a) × (x ≼ b))
    min_iff x a b ha hb =
        ground (arith, lt-eq-not-le b a hb ha, le_total a b ha hb, le_trans x a b, le_trans x b a)

    max_iff : (x a b : D) → IsNumber a → IsNumber b → (Double.max a b ≼ x) ↔ ((a ≼ x) × (b ≼ x))
    max_iff x a b ha hb =
        ground (arith, lt-eq-not-le a b ha hb, le_total a b ha hb, le_trans a b x, le_trans b a x)

    tighter-IsNumber : (u : Bool) (a b : D) → IsNumber a → IsNumber b → IsNumber (tighter u a b)
    unfolding tighter
    tighter-IsNumber u a b ha hb = ground arith

    Meets-tighter :
        (x : List D) (l m : ConflictLiteral D)
        → IsNumber l.value
        → IsNumber m.value
        → same_slot m l ≡ true
        → Meets x (record m { value = tighter l.is_upper m.value l.value })
          ↔ (Meets x l × Meets x m)
    unfolding tighter
    Meets-tighter x l m hl hm s =
        let at = get_or x m.column d.nought in
        let (column, upper) = same_slot_fields m l s in
        ground (arith, min_iff at m.value l.value hm hl, max_iff at m.value l.value hm hl)

    tighten-numbers :
        (l : ConflictLiteral D) (ms : List (ConflictLiteral D))
        → IsNumber l.value
        → HasNumbers ms
        → HasNumbers (tighten l ms)
    unfolding tighten
    tighten-numbers l [] h hs = (h, tt)
    tighten-numbers l (m ∷ ms) h hs = elim (Bool-cases (same_slot m l)) [
      | inl s ↦ rw s (tighter-IsNumber _ _ _ hs.0 h, hs.1)
      | inr s ↦ elim (Bool-cases (key_less l m)) [
        | inl k ↦ rw (s, k) (h, hs)
        | inr k ↦ rw (s, k) (hs.0, tighten-numbers l ms h hs.1)
      ]
    ]

    Meets-tighten :
        (x : List D) (l : ConflictLiteral D) (ms : List (ConflictLiteral D))
        → IsNumber l.value
        → HasNumbers ms
        → All (Meets x) (tighten l ms) ↔ (Meets x l × All (Meets x) ms)
    unfolding tighten
    Meets-tighten x l [] h hs = ((λ m. (m.0, tt)), λ m. (m.0, tt))
    Meets-tighten x l (m ∷ ms) h hs = elim (Bool-cases (same_slot m l)) [
      | inl s ↦
          let both = Meets-tighter x l m h hs.0 s in
          rw s ((λ t. ((both.0 t.0).0, ((both.0 t.0).1, t.1))), λ t. (both.1 (t.0, t.1.0), t.1.1))
      | inr s ↦
          let rest = Meets-tighten x l ms h hs.1 in
          elim (Bool-cases (key_less l m)) [
            | inl k ↦ rw (s, k) ((λ t. (t.0, t.1)), λ t. (t.0, t.1))
            | inr k ↦
                rw (s, k)
                  (
                    (λ t. ((rest.0 t.1).0, (t.0, (rest.0 t.1).1))),
                    λ t. (t.1.0, rest.1 (t.0, t.1.1)),
                  )
          ]
    ]

    canonical_onto_lem :
        (x : List D) (held ls : List (ConflictLiteral D))
        → HasNumbers held
        → HasNumbers ls
        → IsCanonical held
        → IsCanonical (canonical_onto held ls)
          × (All (Meets x) (canonical_onto held ls) ↔ (All (Meets x) held × All (Meets x) ls))
    unfolding canonical_onto
    canonical_onto_lem x held [] hh hl c = (c, ((λ m. (m, tt)), λ m. m.0))
    canonical_onto_lem x held (l ∷ ls) hh hl c =
        let one = Meets-tighten x l held hl.0 hh in
        let (sorted, rest) =
          canonical_onto_lem x (tighten l held) ls (tighten-numbers l held hl.0 hh) hl.1
            (tighten-IsCanonical l held c) in
        (
          sorted,
          (
            (λ m. let (h, t) = rest.0 m in let (first, others) = one.0 h in (others, (first, t))),
            λ m. rest.1 (one.1 (m.1.0, m.0), m.1.1),
          ),
        )

    -- The canonical form of literals whose values are numbers has strictly ascending keys, so one
    -- literal for each column and direction, and a point meets all of its literals exactly when it
    -- meets all of the given ones.
    pub canonical_lem :
        (x : List D) (literals : List (ConflictLiteral D))
        → HasNumbers literals
        → IsCanonical (canonical literals)
          × (All (Meets x) (canonical literals) ↔ All (Meets x) literals)
    unfolding canonical
    canonical_lem x literals h =
        let (sorted, same) = canonical_onto_lem x [] literals tt h tt in
        (sorted, ((λ m. (same.0 m).1), λ m. same.1 (tt, m)))
