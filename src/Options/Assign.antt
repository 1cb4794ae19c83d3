-- ===== src/Options/Assign.antt =====
-- What an assignment from text in src/util/options.cpp does to the values.
use mathlib.Core.Option.{some-injective}
use sih.Prelude.{
  ℕ, zero, suc, ◌≡◌, ◌≢◌, ◌∙◌, ◌⊎◌, ◌↔◌, Bool, true, false, not, ◌||◌, Option, none, some, List, [],
  ◌∷◌, refl, sym, subst, arith, inl, inr, Bool-cases, Option-cases, if◌then◌else◌, get_elem?, set,
}
use sih.Prelude.Double.{Double, IsOrdered, IsNumber, is_nan, ◌≼◌}
use sih.Prelude.Int.{ℤ}
use sih.Prelude.Outcome.{Outcome, done, failed, Outcome-cases, ◌>>=◌}
use sih.Text.{Bytes, same_bytes, trim}
use sih.Options.{
  OptionType, bool_option, int_option, double_option, string_option, OptionValue, bool_value,
  int_value, double_value, string_value, OptionSpec, OptionError, out_of_range, unknown_option,
  to_lower, is_one_of, unread, no_choices, next, name_index, value_of, parse_bool, parse_choice,
  outside, parse_integer, parse_number, parse_value, set_from_string,
}

same_bytes_eq : (a b : Bytes) → same_bytes a b ≡ true → a ≡ b
unfolding same_bytes
same_bytes_eq [] [] h = refl
same_bytes_eq [] (d ∷ ds) h = cc
same_bytes_eq (c ∷ cs) [] h = cc
same_bytes_eq (c ∷ cs) (d ∷ ds) h = ground (arith, same_bytes_eq cs ds)

module _ {ℓ} {D : Type ℓ} where
  -- The option stands at the position, and no option before it has the name.
  abbrev pub Named : List (OptionSpec D) → Bytes → ℕ → OptionSpec D → Type ℓ
  Named [] name i spec = ⊥ × (spec ≡ spec)
  Named (s ∷ specs) name zero spec = (s ≡ spec) × (same_bytes s.name name ≡ true)
  Named (s ∷ specs) name (suc i) spec = (same_bytes s.name name ≡ false) × Named specs name i spec

  name_index-Named :
      (specs : List (OptionSpec D)) (name : Bytes) (i : ℕ) (spec : OptionSpec D)
      → name_index specs name ≡ some (i, spec)
      → Named specs name i spec
  unfolding name_index
  name_index-Named [] name i spec f = cc
  name_index-Named (s ∷ specs) name i spec f = elim (Bool-cases (same_bytes s.name name)) [
    | inl t ↦
        let found : (0, s) ≡ (i, spec) = some-injective _ _ (rw t at f) in
        subst (λ q. Named (s ∷ specs) name q.0 q.1) found (refl, t)
    | inr n ↦ elim (Option-cases (name_index specs name)) [
      | inl missing ↦
          let nothing : Option (ℕ × OptionSpec D) = none in
          let none_found : next nothing ≡ some (i, spec) = rw (n, missing) at f in cc
      | inr (there, at) ↦
          let found : (suc there.0, there.1) ≡ (i, spec) = some-injective _ _ (rw (n, at) at f) in
          subst (λ q. Named (s ∷ specs) name q.0 q.1) found
            (n, name_index-Named specs name there.0 there.1 at)
    ]
  ]

  value_of-later :
      (s : OptionSpec D) (specs : List (OptionSpec D)) (w : OptionValue D)
      (values : List (OptionValue D)) (name : Bytes)
      → same_bytes s.name name ≡ false
      → value_of (s ∷ specs) (w ∷ values) name ≡ value_of specs values name
  unfolding value_of name_index
  value_of-later s specs w values name n = elim (Option-cases (name_index specs name)) [
    | inl missing ↦ rw (n, missing, value_of, name_index) refl
    | inr (there, at) ↦ rw (n, at, value_of, name_index) refl
  ]

  -- A write at the option of one name leaves the values of the other names.
  set-others :
      (specs : List (OptionSpec D)) (values : List (OptionValue D)) (name other : Bytes) (i : ℕ)
      (spec : OptionSpec D) (v : OptionValue D)
      → Named specs name i spec
      → name ≢ other
      → value_of specs (set values i v) other ≡ value_of specs values other
  unfolding value_of name_index
  set-others [] values name other i spec v f n = absurd f.0
  set-others (s ∷ specs) [] name other i spec v f n = refl
  set-others (s ∷ specs) (w ∷ values) name other zero spec v f n =
      elim (Bool-cases (same_bytes s.name other)) [
        | inl t ↦ absurd (n (sym (same_bytes_eq s.name name f.1) ∙ same_bytes_eq s.name other t))
        | inr o ↦
            value_of-later s specs v values other o ∙ sym (value_of-later s specs w values other o)
      ]
  set-others (s ∷ specs) (w ∷ values) name other (suc i) spec v f n =
      elim (Bool-cases (same_bytes s.name other)) [
        | inl t ↦ rw (t, value_of, name_index) refl
        | inr o ↦
            value_of-later s specs w (set values i v) other o
            ∙ set-others specs values name other i spec v f.1 n
            ∙ sym (value_of-later s specs w values other o)
      ]

module _ {ℓ} {D : Type ℓ} ⦃d : Double D⦄ (to_double : ℤ → D) where
  -- A value of the option's type: a number not outside its range, or one of its choices.
  abbrev pub admits : OptionType → OptionSpec D → OptionValue D → Bool
  admits bool_option spec (bool_value b) = true
  admits int_option spec (int_value n) = not (outside spec (to_double n))
  admits double_option spec (double_value x) = not (outside spec x)
  admits string_option spec (string_value s) = no_choices spec.choices || is_one_of s spec.choices
  admits _ spec _ = false

  -- Each value is one that its option admits.
  abbrev pub IsValid : List (OptionSpec D) → List (OptionValue D) → Type 0
  IsValid [] [] = Unit
  IsValid (spec ∷ specs) (v ∷ vs) = (admits spec.type spec v ≡ true) × IsValid specs vs
  IsValid _ _ = ⊥

  set-IsValid :
      (specs : List (OptionSpec D)) (values : List (OptionValue D)) (name : Bytes) (i : ℕ)
      (spec : OptionSpec D) (v : OptionValue D)
      → IsValid specs values
      → Named specs name i spec
      → admits spec.type spec v ≡ true
      → IsValid specs (set values i v) × (get_elem? (set values i v) i ≡ some v)
  set-IsValid [] values name i spec v h f a = absurd f.0
  set-IsValid (s ∷ specs) [] name i spec v h f a = absurd h
  set-IsValid (s ∷ specs) (w ∷ values) name zero spec v h f a = ((rw f.0 a, h.1), refl)
  set-IsValid (s ∷ specs) (w ∷ values) name (suc i) spec v h f a =
      let (valid, there) = set-IsValid specs values name i spec v h.1 f.1 a in ((h.0, valid), there)

  -- What `parse_value` gives is a value that the option admits.
  parse_value-admits :
      (strtod : Bytes → D × ℕ × Bool) (strtoll : Bytes → ℤ × ℕ × Bool) (t : OptionType)
      (spec : OptionSpec D) (text : Bytes) (v : OptionValue D)
      → parse_value strtod strtoll to_double t spec text ≡ done v
      → admits t spec v ≡ true
  unfolding parse_value parse_bool parse_integer parse_number parse_choice
  parse_value-admits strtod strtoll bool_option spec text v h = ground arith
  parse_value-admits strtod strtoll int_option spec text v h = ground arith
  parse_value-admits strtod strtoll double_option spec text v h = ground arith
  parse_value-admits strtod strtoll string_option spec text v h = ground arith

module _ {ℓ} {D : Type ℓ} ⦃d : Double D⦄ (strtod : Bytes → D × ℕ × Bool)
    (strtoll : Bytes → ℤ × ℕ × Bool) (to_double : ℤ → D) where
  -- An assignment that is taken, to values that the registry admits: the values stay so, the option
  -- of the name, which is read in lower case and without the blanks around it, has the value that
  -- its text says, and the options of all other names keep theirs.
  pub set_from_string_lem :
      (registry : List (OptionSpec D)) (values result : List (OptionValue D))
      (raw_name raw_text : Bytes)
      → IsValid to_double registry values
      → set_from_string strtod strtoll to_double registry values raw_name raw_text ≡ done result
      → let name = to_lower (trim raw_name) in
        IsValid to_double registry result
        × ((other : Bytes)
            → name ≢ other
            → value_of registry result other ≡ value_of registry values other)
        × (i : ℕ) × (spec : OptionSpec D) × (v : OptionValue D) × (name_index registry name
            ≡ some (i, spec))
        × (value_of registry result name ≡ some v)
        × (parse_value strtod strtoll to_double spec.type spec (trim raw_text) ≡ done v)
  unfolding set_from_string ◌>>=◌ value_of
  set_from_string_lem registry values result raw_name raw_text h q =
      let name = to_lower (trim raw_name) in
      elim (Option-cases (name_index registry name)) [
        | inl missing ↦
            let refused : failed unknown_option ≡ done result =
              rw (missing, set_from_string) at q in
            cc
        | inr (there, at) ↦
            let (i, spec) = there in
            let parsed = parse_value strtod strtoll to_double spec.type spec (trim raw_text) in
            elim (Outcome-cases parsed) [
              | inl (e, refused) ↦
                  let stopped : failed e ≡ done result = rw (at, refused, set_from_string) at q in
                  cc
              | inr (v, taken) ↦
                  let stored : ◌≡◌ {A = Outcome OptionError (List (OptionValue D))}
                      (done (set values i v)) (done result) =
                    rw (at, taken, set_from_string) at q in
                  let written : set values i v ≡ result = cc in
                  let named = name_index-Named registry name i spec at in
                  let (valid, written_at) =
                    set-IsValid to_double registry values name i spec v h named (
                      parse_value-admits to_double strtod strtoll spec.type spec (trim raw_text) v
                        taken) in
                  rw (← written) (
                    valid,
                    λ other. set-others registry values name other i spec v named,
                    i,
                    spec,
                    v,
                    at,
                    rw (value_of, at) written_at,
                    taken,
                  )
            ]
      ]

  -- A text that is read in full as a number without a range error is taken for a double option,
  -- where its bounds are numbers, exactly when the number lies between the bounds or is a NaN.
  pub parse_number_lem :
      (spec : OptionSpec D) (text : Bytes) (value : D) (read : ℕ)
      → IsOrdered D
      → IsNumber spec.min_value
      → IsNumber spec.max_value
      → strtod text ≡ (value, read, false)
      → unread text read ≡ false
      → (parse_number strtod strtoll to_double spec text ≡ done (double_value value))
        ↔ ((is_nan value ≡ true) ⊎ ((spec.min_value ≼ value) × (value ≼ spec.max_value)))
  unfolding parse_number outside
  parse_number_lem spec text value read o lo hi q full =
      let parsed : parse_number strtod strtoll to_double spec text
          ≡ (if outside spec value then failed out_of_range else done (double_value value)) =
        rw (q, full) refl in
      elim (Bool-cases (is_nan value)) [
        | inl nan ↦
            let below : d.lt value spec.min_value ≡ false =
              ground (arith, o.numbers_of_lt value spec.min_value) in
            let above : d.lt spec.max_value value ≡ false =
              ground (arith, o.numbers_of_lt spec.max_value value) in
            (λ taken. inl nan, λ _. ground arith)
        | inr number ↦
            let below : d.lt value spec.min_value ≡ not (d.le spec.min_value value) =
              o.lt-eq-not-le value spec.min_value (ground arith) lo in
            let above : d.lt spec.max_value value ≡ not (d.le value spec.max_value) =
              o.lt-eq-not-le spec.max_value value hi (ground arith) in
            (λ taken. inr (ground arith, ground arith), λ between. ground arith)
      ]
