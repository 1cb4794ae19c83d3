-- ===== src/Checkpoint/Write.antt =====
-- src/mip/checkpoint.cpp: `write_checkpoint` on the files by their paths. What the operating system does
-- with each call is a record; the states between the calls are kept, the latest one last.
use Prim.Native.String.{String}
use sih.Prelude.{
  ℕ, zero, suc, Bool, true, false, not, ◌&&◌, ◌||◌, Option, none, some, List, [], ◌∷◌, ◌++◌,
  if◌then◌else◌, leb, length, take,
}
use sih.Prelude.Double.{Double}
use sih.Text.{Bytes, bytes, same_bytes}
use sih.Checkpoint.{Json, TreeCheckpoint, Nlohmann, root_of}
pub mod Atomic

abbrev pub Files : Type 0
Files = Bytes → Option Bytes

-- Whether `fopen`, `fclose` and `rename` succeed, and how many bytes `fwrite` takes at most.
pub record System : Type 0 where
  pub opens : Bool
  pub takes : ℕ
  pub closes : Bool
  pub renames : Bool

pub data WriteError : Type 0 where
  cannot_open_for_writing write_failed could_not_replace : WriteError

abbrev pub put_file : Bytes → Option Bytes → Files → Files
put_file path contents files p = if same_bytes p path then contents else files p

pub record Written : Type 0 where
  pub error : Option WriteError
  pub states : List Files
  pub files : Files

abbrev pub temporary_of : Bytes → Bytes
temporary_of path = path ++ bytes ".tmp"

-- The calls on the files that leave `contents` at the path.
unfoldable pub write_file : System → Bytes → Bytes → Files → Written
write_file system path contents files =
    let temporary = temporary_of path in
    let opened = put_file temporary (some []) files in
    let written = put_file temporary (some (take system.takes contents)) files in
    let removed = put_file temporary none written in
    let moved =
      put_file temporary none (put_file path (some (take system.takes contents)) written) in
    if not system.opens
    then record { error = some cannot_open_for_writing; states = []; files = files }
    else if not (leb (length contents) system.takes && system.closes)
    then record { error = some write_failed; states = opened ∷ written ∷ []; files = removed }
    else if not system.renames
    then record { error = some could_not_replace; states = opened ∷ written ∷ []; files = removed }
    else record { error = none; states = opened ∷ written ∷ []; files = moved }

unfoldable pub write_checkpoint {ℓ} :
    {D : Type ℓ} ⦃d : Double D⦄
    → Nlohmann D
    → Bytes
    → Bytes
    → System
    → Bytes
    → TreeCheckpoint D
    → Files
    → Written
write_checkpoint json version commit system path c =
    write_file system path (json.dump_indented (root_of json version commit c))
