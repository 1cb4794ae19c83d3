-- ===== src/Checkpoint/Write/Atomic.antt =====
-- A write leaves the old checkpoint or the new one, whatever the system does.
use sih.Prelude.{
  and-false, ◌<◌, ◌≡◌, true, false, ◌==◌, ◌&&◌, none, some, [], ◌∷◌, refl, arith, leb, length,
  length-append, take, take-length, All, inl, inr, Bool-cases,
}
use sih.Prelude.Double.{Double}
use sih.Text.{Bytes, bytes, same_bytes}
use sih.Checkpoint.{TreeCheckpoint, Nlohmann, root_of}
use sih.Checkpoint.Write.{
  Files, System, WriteError, Written, temporary_of, write_file, write_checkpoint,
}

pub same_bytes_refl : (s : Bytes) → same_bytes s s ≡ true
unfolding same_bytes
same_bytes_refl [] = refl
same_bytes_refl (c ∷ s) = let here : (c == c) ≡ true = ground arith in rw here (same_bytes_refl s)

same_bytes_longer : (s t : Bytes) → length s < length t → same_bytes s t ≡ false
unfolding same_bytes
same_bytes_longer [] [] h = absurd (omega arith)
same_bytes_longer [] (d ∷ t) h = refl
same_bytes_longer (c ∷ s) [] h = refl
same_bytes_longer (c ∷ s) (d ∷ t) h = rw (same_bytes_longer s t (omega arith)) (and-false (c == d))

path_apart : (path : Bytes) → same_bytes path (temporary_of path) ≡ false
path_apart path =
    same_bytes_longer path (temporary_of path) (omega (arith, length-append path (bytes ".tmp")))

-- The four ways through the calls.
data Course (system : System) (contents : Bytes) : Type 0 where
  unopened : system.opens ≡ false → Course system contents
  unwritten :
      system.opens ≡ true
      → (leb (length contents) system.takes && system.closes) ≡ false
      → Course system contents
  unmoved :
      system.opens ≡ true
      → (leb (length contents) system.takes && system.closes) ≡ true
      → system.renames ≡ false
      → Course system contents
  moved :
      system.opens ≡ true
      → (leb (length contents) system.takes && system.closes) ≡ true
      → system.renames ≡ true
      → Course system contents

course : (system : System) (contents : Bytes) → Course system contents
course system contents = elim (Bool-cases system.opens) [
  | inr o ↦ Course.unopened o
  | inl o ↦ elim (Bool-cases (leb (length contents) system.takes && system.closes)) [
    | inr w ↦ Course.unwritten o w
    | inl w ↦ elim (Bool-cases system.renames) [
      | inr r ↦ Course.unmoved o w r
      | inl r ↦ Course.moved o w r
    ]
  ]
]

-- What is true of a write at the path.
pub record IsAtomic (path contents : Bytes) (files : Files) (w : Written) : Type 0 where
  pub between : All (λ q. q path ≡ files path) w.states
  pub others :
      (p : Bytes)
      → same_bytes p path ≡ false
      → same_bytes p (temporary_of path) ≡ false
      → w.files p ≡ files p
  pub success :
      w.error ≡ none → (w.files path ≡ some contents) × (w.files (temporary_of path) ≡ none)
  pub failure : (e : WriteError) → w.error ≡ some e → w.files path ≡ files path

write_file-IsAtomic :
    (system : System) (path contents : Bytes) (files : Files)
    → IsAtomic path contents files (write_file system path contents files)
unfolding write_file
write_file-IsAtomic system path contents files =
    let apart = path_apart path in
    elim (course system contents) [
      | Course.unopened o ↦ rw o (record {
        between = tt;
        others = λ p h k. refl;
        success = λ e. absurd (ground arith);
        failure = λ e h. refl;
      })
      | Course.unwritten o w ↦
          rw (o, w)
            (record {
              between = (rw apart refl, (rw apart refl, tt));
              others = λ p h k. rw k refl;
              success = λ e. absurd (ground arith);
              failure = λ e h. rw apart refl;
            })
      | Course.unmoved o w r ↦
          rw (o, w, r)
            (record {
              between = (rw apart refl, (rw apart refl, tt));
              others = λ p h k. rw k refl;
              success = λ e. absurd (ground arith);
              failure = λ e h. rw apart refl;
            })
      | Course.moved o w r ↦
          let whole : take system.takes contents ≡ contents =
            take-length system.takes contents (ground arith) in
          rw (o, w, r)
            (record {
              between = (rw apart refl, (rw apart refl, tt));
              others = λ p h k. rw (k, h) refl;
              success = λ e. (
                rw (apart, same_bytes_refl path, whole) refl,
                rw (same_bytes_refl (temporary_of path)) refl,
              );
              failure = λ e h. absurd (ground arith);
            })
    ]

-- Whatever the system does with the calls, in every state before the end the path holds what it held,
-- and at the end as well if an error is reported; without one it holds the whole document and the
-- temporary file is gone. No other file changes.
pub write_checkpoint-IsAtomic {ℓ} :
    {D : Type ℓ} ⦃d : Double D⦄ (json : Nlohmann D) (version commit : Bytes) (system : System)
    (path : Bytes) (c : TreeCheckpoint D) (files : Files)
    → IsAtomic path
        (json.dump_indented (root_of json version commit c))
        files
        (write_checkpoint json version commit system path c files)
unfolding write_checkpoint
write_checkpoint-IsAtomic json version commit system path c files =
    write_file-IsAtomic system path (json.dump_indented (root_of json version commit c)) files
