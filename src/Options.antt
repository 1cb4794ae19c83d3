-- ===== src/Options.antt =====
-- src/util/options.cpp: the options as values in the order of the registry, and the assignment from
-- text. `strtod` and `strtoll` give the value, the number of bytes read and whether `errno` is
-- `ERANGE`; the registry and the conversion of an integer to a double are parameters. The code's own
-- `trim` is that of the readers.
use Prim.Native.String.{String}
use sih.Prelude.{
  ℕ, zero, suc, ◌+◌, Bool, true, false, not, ◌&&◌, ◌||◌, ◌==◌, Option, none, some, List, [], ◌∷◌,
  map, if◌then◌else◌, leb, get_or, get_elem?, set,
}
use sih.Prelude.Double.{Double}
use sih.Prelude.Int.{ℤ}
use sih.Prelude.Outcome.{Outcome, failed, done, ◌>>=◌, ◌>>◌, raise_if}
use sih.Text.{Bytes, bytes, same_bytes, trim}
pub mod Assign

pub data OptionType : Type 0 where
  bool_option int_option double_option string_option : OptionType

pub data OptionValue {ℓ} (D : Type ℓ) : Type ℓ where
  bool_value : Bool → OptionValue D
  int_value : ℤ → OptionValue D
  double_value : D → OptionValue D
  string_value : Bytes → OptionValue D

pub record OptionSpec {ℓ} (D : Type ℓ) : Type ℓ where
  pub name : Bytes
  pub type : OptionType
  pub default_value : OptionValue D
  pub min_value : D
  pub max_value : D
  pub choices : List Bytes
  pub case_sensitive : Bool

pub data OptionError : Type 0 where
  unknown_option not_boolean not_integer not_number out_of_range not_a_choice : OptionError

abbrev lower : ℕ → ℕ
lower c = if leb 65 c && leb c 90 then c + 32 else c

unfoldable pub to_lower : Bytes → Bytes
to_lower = map lower

unfoldable pub is_one_of : Bytes → List Bytes → Bool
is_one_of v [] = false
is_one_of v (w ∷ ws) = same_bytes v w || is_one_of v ws

-- Nothing was read, or something that is not the end of the text follows.
unfoldable pub unread : Bytes → ℕ → Bool
unread text read = read == 0 || not (get_or text read 0 == 0)

abbrev no_choices : List Bytes → Bool
no_choices [] = true
no_choices _ = false

abbrev next {ℓ} : {A : Type ℓ} → Option (ℕ × A) → Option (ℕ × A)
next none = none
next (some (i, a)) = some (suc i, a)

module _ {ℓ} {D : Type ℓ} where
  -- `name_index`: the first option of the name counts.
  unfoldable pub name_index : List (OptionSpec D) → Bytes → Option (ℕ × OptionSpec D)
  name_index [] name = none
  name_index (spec ∷ specs) name =
      let later = next (name_index specs name) in
      if same_bytes spec.name name then some (0, spec) else later

  -- `Options::Options`
  unfoldable pub options : List (OptionSpec D) → List (OptionValue D)
  options = map (λ spec. spec.default_value)

  -- An unknown name aborts the program.
  unfoldable pub value_of :
      List (OptionSpec D) → List (OptionValue D) → Bytes → Option (OptionValue D)
  value_of registry values name = elim (name_index registry name) [
    | none ↦ none
    | some (i, spec) ↦ get_elem? values i
  ]

  unfoldable pub parse_bool : Bytes → Outcome OptionError (OptionValue D)
  parse_bool text =
      let v = to_lower text in
      if is_one_of v (bytes "1" ∷ bytes "true" ∷ bytes "on" ∷ bytes "yes" ∷ [])
      then done (bool_value true)
      else if is_one_of v (bytes "0" ∷ bytes "false" ∷ bytes "off" ∷ bytes "no" ∷ [])
      then done (bool_value false)
      else failed not_boolean

  unfoldable pub parse_choice : OptionSpec D → Bytes → Outcome OptionError (OptionValue D)
  parse_choice spec text =
      let v = if spec.case_sensitive then text else to_lower text in
      if not (no_choices spec.choices) && not (is_one_of v spec.choices)
      then failed not_a_choice
      else done (string_value v)

module _ {ℓ} {D : Type ℓ} ⦃d : Double D⦄ where
  unfoldable pub outside : OptionSpec D → D → Bool
  outside spec v = d.lt v spec.min_value || d.lt spec.max_value v

  module _ (strtod : Bytes → D × ℕ × Bool) (strtoll : Bytes → ℤ × ℕ × Bool)
      (to_double : ℤ → D) where
    unfoldable pub parse_integer : OptionSpec D → Bytes → Outcome OptionError (OptionValue D)
    parse_integer spec text =
        let (parsed, read, range_error) = strtoll text in
        if unread text read || range_error
        then failed not_integer
        else if outside spec (to_double parsed)
        then failed out_of_range
        else done (int_value parsed)

    unfoldable pub parse_number : OptionSpec D → Bytes → Outcome OptionError (OptionValue D)
    parse_number spec text =
        let (parsed, read, range_error) = strtod text in
        if unread text read || range_error
        then failed not_number
        else if outside spec parsed
        then failed out_of_range
        else done (double_value parsed)

    unfoldable pub parse_value :
        OptionType → OptionSpec D → Bytes → Outcome OptionError (OptionValue D)
    parse_value bool_option spec text = parse_bool text
    parse_value int_option spec text = parse_integer spec text
    parse_value double_option spec text = parse_number spec text
    parse_value string_option spec text = parse_choice spec text

    -- A refusal leaves the values as they are, and gives the reason alone.
    unfoldable pub set_from_string :
        List (OptionSpec D)
        → List (OptionValue D)
        → Bytes
        → Bytes
        → Outcome OptionError (List (OptionValue D))
    set_from_string registry values raw_name raw_text =
        elim (name_index registry (to_lower (trim raw_name))) [
          | none ↦ failed unknown_option
          | some (i, spec) ↦ (do
            v ← parse_value spec.type spec (trim raw_text)
            done (set values i v))
        ]
