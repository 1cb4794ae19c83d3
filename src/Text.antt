-- ===== src/Text.antt =====
-- src/io/token.hpp: the lexical helpers of the readers. A text is its list of bytes; `std::isspace`
-- and `std::toupper` are those of the C locale, and `std::strtod` is a parameter.
use Prim.Native.String.{String}
use Prim.Native.Char.{code}
use sih.Prelude.{
  ℕ, zero, suc, ◌+◌, ◌-◌, Bool, true, false, not, ◌&&◌, ◌||◌, ◌==◌, Option, none, some, List, [],
  ◌∷◌, ◌++◌, map, if◌then◌else◌, ltb, leb,
}
use sih.Prelude.Double.{Double, is_nan}
pub mod Tokens

abbrev pub Bytes : Type 0
Bytes = List ℕ

-- The bytes of an ASCII literal.
abbrev pub bytes : String → Bytes
bytes String.[] = []
bytes (String.◌∷◌ c s) = code c ∷ bytes s

unfoldable pub same_bytes : Bytes → Bytes → Bool
same_bytes [] [] = true
same_bytes [] (d ∷ ds) = false
same_bytes (c ∷ cs) [] = false
same_bytes (c ∷ cs) (d ∷ ds) = (c == d) && same_bytes cs ds

unfoldable pub is_empty : Bytes → Bool
is_empty [] = true
is_empty (c ∷ cs) = false

unfoldable pub is_space : ℕ → Bool
is_space c = c == 32 || (leb 9 c && leb c 13)

unfoldable pub trim_start : Bytes → Bytes
trim_start [] = []
trim_start (c ∷ cs) = let rest = trim_start cs in if is_space c then rest else c ∷ cs

unfoldable pub trim_end : Bytes → Bytes
trim_end [] = []
trim_end (c ∷ cs) = let rest = trim_end cs in if is_empty rest && is_space c then [] else c ∷ rest

unfoldable pub trim : Bytes → Bytes
trim s = trim_end (trim_start s)

unfoldable pub upper : ℕ → ℕ
upper c = if leb 97 c && leb c 122 then c - 32 else c

unfoldable pub to_upper : Bytes → Bytes
to_upper s = map upper s

-- The scan of `tokenize`; the word is empty while the scan skips blanks.
unfoldable pub scan : Bytes → Bytes → List Bytes
scan word [] = if is_empty word then [] else word ∷ []
scan word (c ∷ cs) =
    let fresh = scan [] cs in
    let longer = scan (word ++ c ∷ []) cs in
    if not (is_space c) then longer else if is_empty word then fresh else word ∷ fresh

unfoldable pub tokenize : Bytes → List Bytes
tokenize line = scan [] line

unfoldable pub last_byte : ℕ → Bytes → ℕ
last_byte c [] = c
last_byte c (d ∷ ds) = last_byte d ds

unfoldable pub drop_last : Bytes → Bytes
drop_last [] = []
drop_last (c ∷ []) = []
drop_last (c ∷ d ∷ ds) = c ∷ drop_last (d ∷ ds)

unfoldable pub unquote : Bytes → Bytes
unquote [] = []
unquote (c ∷ []) = c ∷ []
unquote (c ∷ d ∷ ds) =
    if (c == 39 || c == 34) && (last_byte d ds == c) then drop_last (d ∷ ds) else c ∷ d ∷ ds

unfoldable pub fortran_exponent : ℕ → ℕ
fortran_exponent c = if c == 68 || c == 100 then 69 else c

unfoldable pub all_space : Bytes → Bool
all_space [] = true
all_space (c ∷ cs) = is_space c && all_space cs

unfoldable pub drop : ℕ → Bytes → Bytes
drop zero s = s
drop (suc n) [] = []
drop (suc n) (c ∷ cs) = drop n cs

-- What a C string holds of its bytes.
unfoldable pub until_nul : Bytes → Bytes
until_nul [] = []
until_nul (c ∷ cs) = let rest = until_nul cs in if c == 0 then [] else c ∷ rest

module _ {ℓ} {D : Type ℓ} ⦃d : Double D⦄ (strtod : Bytes → D × ℕ) where
  -- `strtod` gives the value and the number of bytes that it read, 0 where there is no number.
  unfoldable pub parse_double : Bytes → Option D
  parse_double text =
      let buffer = until_nul (map fortran_exponent (trim text)) in
      let (value, read) = strtod buffer in
      if is_empty (trim text)
      then none
      else if read == 0
      then none
      else if not (all_space (drop read buffer))
      then none
      else if is_nan value
      then none
      else some value
