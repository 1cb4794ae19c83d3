-- ===== src/Tests/Checkpoint.antt =====
-- src/mip/checkpoint.cpp on a checkpoint with one open node.
use sih.Prelude.{true, ◌≡◌, Option, none, some, List, [], ◌∷◌, refl, ap, arith, inl, inr}
use sih.Prelude.Double.{Extended, num, high, low, extended_double}
use sih.Prelude.Int.{ℤ, pos}
use sih.Prelude.Outcome.{done}
use sih.Text.{Bytes, bytes}
use sih.Checkpoint.{
  Json, boolean, integer, real, array, Items, end, item, TreeCheckpoint, Nlohmann, items_of,
  root_of, checksum,
}
use sih.Checkpoint.Content.{IsWritable, IsNlohmann, HasInfinities, IsPrinted}
use sih.Checkpoint.Read.{read_checkpoint}
use sih.Checkpoint.Roundtrip.{read_checkpoint-write_checkpoint}
use sih.Checkpoint.Write.{System, Files, write_checkpoint, write_file}
use sih.Checkpoint.Write.Atomic.{IsAtomic, write_checkpoint-IsAtomic}

abbrev saved : TreeCheckpoint Extended
saved = record {
  model_fingerprint = 7 ∷ [];
  problem_class = bytes "milp";
  num_rows = pos 2;
  num_cols = pos 1;
  integrality_tolerance = num (pos 0);
  have_incumbent = true;
  incumbent_x = num (pos 4) ∷ [];
  nodes_explored = pos 9;
  nodes_pruned = pos 3;
  pseudo_down_sum = num (pos 1) ∷ [];
  pseudo_up_sum = num (pos 2) ∷ [];
  pseudo_down_count = pos 1 ∷ [];
  pseudo_up_count = pos 2 ∷ [];
  open_nodes =
      record {
        domain = record { column = pos 0; is_upper = true; value = num (pos 3) } ∷ [];
        bound = low;
        depth = pos 1;
        estimate = high;
      }
      ∷ [];
}

abbrev list_of : Items Extended → List (Json Extended)
list_of end = []
list_of (item j js) = j ∷ list_of js

abbrev whole : Json Extended → Option ℤ
whole (integer n) = some n
whole _ = none

-- A library that knows one document by heart.
abbrev library_of : Option (Json Extended) → Nlohmann Extended
library_of document = record {
  dump = λ j. [];
  dump_indented = λ j. 1 ∷ [];
  parse = λ t. document;
  get_index = whole;
  get_count = whole;
  get_double = λ j. elim j [ real x ↦ some x | _ ↦ none ];
  get_bool = λ j. elim j [ boolean b ↦ some b | _ ↦ none ];
  elements = λ j. elim j [ array js ↦ list_of js | _ ↦ [] ];
  hexadecimal = λ n. n ∷ [];
}

abbrev library : Nlohmann Extended
library = library_of (some (root_of (library_of none) [] [] saved))

list_of-items_of : (js : List (Json Extended)) → list_of (items_of js) ≡ js
unfolding items_of
list_of-items_of [] = refl
list_of-items_of (j ∷ js) = ap (λ l. j ∷ l) (list_of-items_of js)

library-IsNlohmann : IsNlohmann library
library-IsNlohmann = record {
  get_index-integer = λ n h. refl;
  get_count-integer = λ n h. refl;
  get_double-real = λ x. refl;
  get_bool-boolean = λ b. refl;
  elements-array = list_of-items_of;
}

library-IsPrinted : IsPrinted library (root_of library [] [] saved)
unfolding root_of checksum
library-IsPrinted h = refl

extended-HasInfinities : HasInfinities Extended
extended-HasInfinities = record {
  infinity_infinite = refl;
  infinity_number = refl;
  infinity_positive = refl;
  negative_infinite = refl;
  negative_number = refl;
  negative_negative = refl;
}

saved-IsWritable : IsWritable saved
saved-IsWritable = record {
  num_rows = ground arith;
  num_cols = ground arith;
  tolerance = ground arith;
  incumbent = (inl (ground arith), tt);
  explored = ground arith;
  pruned = ground arith;
  down_sum = ground arith;
  up_sum = ground arith;
  down_count = ground arith;
  up_count = ground arith;
  nodes = (
    record {
      bound = inr (inr refl);
      estimate = inr (inl refl);
      depth = ground arith;
      domain = ((ground arith, inl (ground arith)), tt);
    },
    tt,
  );
}

abbrev healthy : System
healthy = record { opens = true; takes = 1_000; closes = true; renames = true }

abbrev full_disk : System
full_disk = record healthy { takes = 0 }

abbrev old_files : Files
old_files p = some (0 ∷ [])

abbrev path : Bytes
path = bytes "t.ckpt"

write_checkpoint-IsAtomic_example :
    IsAtomic path
      (library.dump_indented (root_of library [] [] saved))
      old_files
      (write_checkpoint library [] [] full_disk path saved old_files)
write_checkpoint-IsAtomic_example =
    write_checkpoint-IsAtomic library [] [] full_disk path saved old_files

read_checkpoint-write_checkpoint_example :
    let w = write_checkpoint library [] [] healthy path saved old_files in
    read_checkpoint library (w.files path) ≡ done saved
unfolding write_checkpoint write_file
read_checkpoint-write_checkpoint_example =
    read_checkpoint-write_checkpoint extended-HasInfinities library library-IsNlohmann [] [] healthy
      path saved old_files library-IsPrinted saved-IsWritable refl
