-- ===== src/Gpu.antt =====
-- src/gpu/multi_device.cpp and src/gpu/multi_device.hpp: the rows of several devices and the list of
-- their numbers. `std::stoi` reads blanks, a sign and digits, and leaves what follows; it throws where
-- there is no digit or no room in 32 bits.
use Prim.Native.String.{String}
use sih.Prelude.{
  ℕ, zero, suc, ◌+◌, ◌-◌, ◌*◌, ◌/◌, ◌%◌, Bool, true, false, not, ◌&&◌, ◌||◌, ◌==◌, Option, none,
  some, List, [], ◌∷◌, ◌++◌, if◌then◌else◌, ltb, leb, length,
}
use sih.Prelude.Int.{ℤ, pos, negsuc}
use sih.Text.{Bytes, bytes, same_bytes, is_empty, is_space, trim_start}
pub mod Cover

pub record RowPartition : Type 0 where
  pub device_id : ℕ
  pub row_start : ℕ
  pub row_end : ℕ

-- `m >= 0 ? m : 0`
abbrev pub rows_of : ℤ → ℕ
rows_of (pos m) = m
rows_of (negsuc m) = 0

-- The devices from the `i`th on, and the row at which the first of them starts.
unfoldable pub partition_from : ℕ → ℕ → ℕ → ℕ → List ℕ → List RowPartition
partition_from base rem i row [] = []
partition_from base rem i row (id ∷ ids) =
    let next = row + (base + (if ltb i rem then 1 else 0)) in
    record { device_id = id; row_start = row; row_end = next }
    ∷ partition_from base rem (suc i) next ids

unfoldable pub partition_rows : ℤ → List ℕ → List RowPartition
partition_rows m [] = []
partition_rows m (id ∷ ids) =
    let k = length (id ∷ ids) in partition_from (rows_of m / k) (rows_of m % k) 0 0 (id ∷ ids)

abbrev is_digit : ℕ → Bool
is_digit c = leb 48 c && leb c 57

-- The digits in front, behind the value so far; `none` if there is no digit at all.
abbrev digits_from : ℕ → Bytes → ℕ
digits_from value [] = value
digits_from value (c ∷ cs) =
    let more = digits_from (10 * value + (c - 48)) cs in if is_digit c then more else value

abbrev magnitude : Bytes → Option ℕ
magnitude [] = none
magnitude (c ∷ cs) = if is_digit c then some (digits_from 0 (c ∷ cs)) else none

-- `std::stoi` where it gives an `id >= 0`: minus zero is one, and other negative numbers are not.
unfoldable pub nonnegative_stoi : Bytes → Option ℕ
nonnegative_stoi token = elim (trim_start token) [
  | [] ↦ none
  | c ∷ cs ↦
      let minus = c == 45 in
      elim (if minus || c == 43 then magnitude cs else magnitude (c ∷ cs)) [
        | none ↦ none
        | some n ↦ if ltb 2_147_483_647 n || (minus && not (n == 0)) then none else some n
      ]
]

-- The numbers of the tokens between commas; an empty token and one without a number are skipped.
unfoldable pub scan_ids : Bytes → Bytes → List ℕ
scan_ids token [] = elim (nonnegative_stoi token) [ none ↦ [] | some n ↦ n ∷ [] ]
scan_ids token (c ∷ cs) =
    let rest = scan_ids [] cs in
    let longer = scan_ids (token ++ c ∷ []) cs in
    if c == 44 then (elim (nonnegative_stoi token) [ none ↦ rest | some n ↦ n ∷ rest ]) else longer

unfoldable pub is_member : ℕ → List ℕ → Bool
is_member n [] = false
is_member n (m ∷ ms) = n == m || is_member n ms

-- The first occurrences, behind those that are kept already.
unfoldable pub unique_from : List ℕ → List ℕ → List ℕ
unique_from kept [] = kept
unique_from kept (n ∷ ns) = unique_from (if is_member n kept then kept else kept ++ n ∷ []) ns

unfoldable pub parse_device_ids : Bytes → List ℕ
parse_device_ids opt =
    if is_empty opt || same_bytes opt (bytes "auto")
    then 0 ∷ []
    else elim (scan_ids [] opt) [ [] ↦ 0 ∷ [] | n ∷ ns ↦ unique_from [] (n ∷ ns) ]
