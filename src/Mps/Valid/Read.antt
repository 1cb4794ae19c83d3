-- ===== src/Mps/Valid/Read.antt =====
-- The two attempts of `read_mps` in src/io/mps_reader.cpp.
use sih.Prelude.{◌≡◌, ◌≢◌, ◌⊎◌, ℕ, Bool, true, List, sym, inl, inr}
use sih.Prelude.Double.{Double, IsOrdered}
use sih.Prelude.Outcome.{Outcome, failed, done, Outcome-cases, ◌>>=◌}
use sih.Text.{Bytes}
use sih.Mps.{MpsFormat, MpsError, auto_format, free_format, fixed_format}
use sih.Mps.Finish.{MpsModel}
use sih.Mps.Parse.{parse, read_as, read_mps}
use sih.Mps.Valid.Parse.{ModelOk, parse-ModelOk}

module _ {ℓ} {D : Type ℓ} ⦃d : Double D⦄ (strtod : Bytes → D × ℕ)
    (validate : MpsModel D → Bool) where
  read_as-done :
      (format used : MpsFormat) (lines : List Bytes) (model : MpsModel D)
      → read_as strtod validate format lines ≡ done (used, model)
      → (used ≡ format) × (parse strtod validate format lines ≡ done model)
  unfolding read_as ◌>>=◌
  read_as-done format used lines model h =
      elim (Outcome-cases (parse strtod validate format lines)) [
        | inl (e, refused) ↦
            let stopped : ◌≡◌ {A = Outcome MpsError (MpsFormat × MpsModel D)} (failed e)
                (done (used, model)) =
              rw (refused, read_as) at h in
            cc
        | inr (m, read) ↦
            let stored : ◌≡◌ {A = Outcome MpsError (MpsFormat × MpsModel D)} (done (format, m))
                (done (used, model)) =
              rw (read, read_as) at h in
            let format_used : format ≡ used = cc in
            let model_read : m ≡ model = cc in (sym format_used, rw (← model_read) read)
      ]

  -- Which reading of the file was reported: the one asked for, or where the reader was to find out,
  -- the free one, or the fixed one of a file that is not read as free.
  abbrev pub Chosen : MpsFormat → MpsFormat → List Bytes → MpsModel D → Type ℓ
  Chosen auto_format used lines model =
      (parse strtod validate used lines ≡ done model)
      × ((used ≡ free_format)
          ⊎ ((used ≡ fixed_format)
              × ((m : MpsModel D) → parse strtod validate free_format lines ≢ done m)))
  Chosen format used lines model = (parse strtod validate used lines ≡ done model) × (used ≡ format)

  read_as-failed :
      (format : MpsFormat) (lines : List Bytes) (e : MpsError)
      → read_as strtod validate format lines ≡ failed e
      → (m : MpsModel D) → parse strtod validate format lines ≢ done m
  unfolding read_as ◌>>=◌
  read_as-failed format lines e h m read =
      let stored : ◌≡◌ {A = Outcome MpsError (MpsFormat × MpsModel D)} (done (format, m))
          (failed e) =
        rw (read, read_as) at h in
      cc

  read_mps-Chosen :
      (format used : MpsFormat) (lines : List Bytes) (model : MpsModel D)
      → read_mps strtod validate format lines ≡ done (used, model)
      → Chosen format used lines model
  unfolding read_mps
  read_mps-Chosen free_format used lines model h =
      let (same, read) = read_as-done free_format used lines model h in (rw same read, same)
  read_mps-Chosen fixed_format used lines model h =
      let (same, read) = read_as-done fixed_format used lines model h in (rw same read, same)
  read_mps-Chosen auto_format used lines model h =
      elim (Outcome-cases (read_as strtod validate free_format lines)) [
        | inr (found, free) ↦
            let stored : done found ≡ done (used, model) = rw (free, read_mps) at h in
            let taken : found ≡ (used, model) = cc in
            let (same, read) = read_as-done free_format used lines model (rw taken at free) in
            (rw same read, inl same)
        | inl (e, refused) ↦ elim (Outcome-cases (read_as strtod validate fixed_format lines)) [
          | inr (found, fixed) ↦
              let stored : done found ≡ done (used, model) = rw (refused, fixed, read_mps) at h in
              let taken : found ≡ (used, model) = cc in
              let (same, read) = read_as-done fixed_format used lines model (rw taken at fixed) in
              (rw same read, inr (same, read_as-failed free_format lines e refused))
          | inl (f, also) ↦
              let stopped : ◌≡◌ {A = Outcome MpsError (MpsFormat × MpsModel D)} (failed e)
                  (done (used, model)) =
                rw (refused, also, read_mps) at h in
              cc
        ]
      ]

  Chosen-parse :
      (format used : MpsFormat) (lines : List Bytes) (model : MpsModel D)
      → Chosen format used lines model
      → parse strtod validate used lines ≡ done model
  Chosen-parse auto_format used lines model c = c.0
  Chosen-parse free_format used lines model c = c.0
  Chosen-parse fixed_format used lines model c = c.0

  -- A model that `read_mps` gives is well formed and accepted by `validate`, whatever the format
  -- asked for. It is what `parse` gives in the format that is reported: the one asked for, or where
  -- the reader was to find out, the free one, or the fixed one of a file that the free reader
  -- refuses.
  pub read_mps-ModelOk :
      (format used : MpsFormat) (lines : List Bytes) (model : MpsModel D)
      → IsOrdered D
      → read_mps strtod validate format lines ≡ done (used, model)
      → ModelOk strtod model × (validate model ≡ true) × Chosen format used lines model
  read_mps-ModelOk format used lines model o h =
      let chosen = read_mps-Chosen format used lines model h in
      let (ok, accepted) =
        parse-ModelOk strtod validate used lines model o
          (Chosen-parse format used lines model chosen) in
      (ok, accepted, chosen)
