-- ===== src/Tests/Gpu.antt =====
-- src/gpu/multi_device.cpp on seven rows and the option " 0,2x,,2, -1,+5".
use sih.Prelude.{◌≡◌, ◌≢◌, ◌⊎◌, ◌+◌, ◌/◌, [], ◌∷◌, map, refl, length, All, Pairwise}
use sih.Prelude.Int.{pos}
use sih.Text.{Bytes, bytes}
use sih.Gpu.{partition_rows, parse_device_ids, scan_ids, nonnegative_stoi, unique_from, is_member}
use sih.Gpu.Cover.{Covers, partition_rows-parse_device_ids}

abbrev option_text : Bytes
option_text = bytes " 0,2x,,2, -1,+5"

-- Blanks, a sign and what follows the digits are no obstacle.
parsed : parse_device_ids option_text ≡ 0 ∷ 2 ∷ 5 ∷ []
unfolding parse_device_ids scan_ids nonnegative_stoi unique_from is_member sih.Text.same_bytes
    sih.Text.is_empty sih.Text.trim_start sih.Text.is_space
parsed = refl

partition_rows-parse_device_ids_example :
    let ids = parse_device_ids option_text in
    let parts = partition_rows (pos 7) ids in
    (ids ≢ [])
    × Pairwise (λ a b. a ≢ b) ids
    × Covers 0 7 parts
    × (map (λ p. p.device_id) parts ≡ ids)
    × All
        (λ p.
          (p.row_end ≡ p.row_start + 7 / length ids)
          ⊎ (p.row_end ≡ p.row_start + (7 / length ids + 1)))
        parts
partition_rows-parse_device_ids_example = partition_rows-parse_device_ids (pos 7) option_text
