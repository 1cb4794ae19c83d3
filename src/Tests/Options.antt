-- ===== src/Tests/Options.antt =====
-- src/util/options.cpp on a registry of two options.
use sih.Prelude.{
  ℕ, ◌-◌, ◌≡◌, ◌≢◌, ◌⊎◌, ◌↔◌, Bool, true, false, some, List, [], ◌∷◌, refl, if◌then◌else◌, get_or,
}
use sih.Prelude.Double.{Extended, nan, high, num, Extended-IsOrdered, extended_double, is_nan, ◌≼◌}
use sih.Prelude.Int.{ℤ, pos}
use sih.Prelude.Outcome.{done, failed, ◌>>=◌}
use sih.Text.{Bytes, bytes, same_bytes, trim, trim_start, trim_end, is_space, is_empty}
use sih.Options.{
  OptionSpec, OptionValue, bool_option, double_option, bool_value, double_value, out_of_range,
  to_lower, unread, name_index, options, value_of, parse_number, parse_value, set_from_string,
  outside,
}
use sih.Options.Assign.{IsValid, set_from_string_lem, parse_number_lem}

abbrev presolve : OptionSpec Extended
presolve = record {
  name = bytes "presolve";
  type = bool_option;
  default_value = bool_value true;
  min_value = num (pos 0);
  max_value = num (pos 0);
  choices = [];
  case_sensitive = false;
}

-- The largest double stands for no limit.
abbrev time_limit : OptionSpec Extended
time_limit = record presolve {
  name = bytes "time_limit";
  type = double_option;
  default_value = double_value extended_double.largest;
  max_value = extended_double.largest;
}

abbrev registry : List (OptionSpec Extended)
registry = presolve ∷ time_limit ∷ []

-- Reads one digit, `nan` and `inf`.
abbrev strtod : Bytes → Extended × ℕ × Bool
strtod text =
    if same_bytes text (bytes "nan")
    then (nan, 3, false)
    else if same_bytes text (bytes "inf")
    then (high, 3, false)
    else (num (pos (get_or text 0 48 - 48)), 1, false)

abbrev strtoll : Bytes → ℤ × ℕ × Bool
strtoll text = (pos 0, 0, false)

abbrev to_double : ℤ → Extended
to_double n = num n

abbrev shortened : List (OptionValue Extended)
shortened = bool_value true ∷ double_value (num (pos 7)) ∷ []

assigned :
    set_from_string strtod strtoll to_double registry
      (options registry)
      (bytes " TIME_limit")
      (bytes "7 ")
    ≡ done shortened
unfolding set_from_string ◌>>=◌ name_index options to_lower trim trim_start trim_end is_space
    is_empty same_bytes parse_value parse_number unread outside
assigned = refl

set_from_string_lem_example :
    let name = to_lower (trim (bytes " TIME_limit")) in
    IsValid to_double registry shortened
    × ((other : Bytes)
        → name ≢ other
        → value_of registry shortened other ≡ value_of registry (options registry) other)
    × (i : ℕ) × (spec : OptionSpec Extended) × (v : OptionValue Extended) × (name_index registry
          name
        ≡ some (i, spec))
    × (value_of registry shortened name ≡ some v)
    × (parse_value strtod strtoll to_double spec.type spec (trim (bytes "7 ")) ≡ done v)
unfolding options outside
set_from_string_lem_example =
    set_from_string_lem strtod strtoll to_double registry (options registry) shortened
      (bytes " TIME_limit") (bytes "7 ") (refl, (refl, tt)) assigned

-- A NaN passes the range of every double option.
nan_taken : parse_number strtod strtoll to_double time_limit (bytes "nan") ≡ done (double_value nan)
unfolding parse_number outside unread same_bytes
nan_taken = refl

-- `value_as_string` writes no limit as `inf`, which is refused.
inf_refused : parse_number strtod strtoll to_double time_limit (bytes "inf") ≡ failed out_of_range
unfolding parse_number outside unread same_bytes
inf_refused = refl

parse_number_lem_example :
    (parse_number strtod strtoll to_double time_limit (bytes "7")
      ≡ done (double_value (num (pos 7))))
    ↔ ((is_nan (num (pos 7)) ≡ true)
        ⊎ ((num (pos 0) ≼ num (pos 7)) × (num (pos 7) ≼ extended_double.largest)))
unfolding unread same_bytes
parse_number_lem_example =
    parse_number_lem strtod strtoll to_double time_limit (bytes "7") (num (pos 7)) 1
      Extended-IsOrdered refl refl refl refl
