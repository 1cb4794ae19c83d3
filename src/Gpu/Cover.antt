-- ===== src/Gpu/Cover.antt =====
-- The parts of the devices cover the rows.
use native.Mathlib.Nat.{div-add-mod', mod-lt, mul_comm}
use Prim.Native.Nat.mul
use sih.Prelude.{
  ℕ, suc, ◌+◌, ◌-◌, ◌*◌, ◌/◌, ◌%◌, ◌≤◌, ◌<◌, ◌≡◌, ◌≢◌, ◌⊎◌, true, false, ◌||◌, ◌==◌, List, [], ◌∷◌,
  ◌++◌, map, refl, ap, arith, inl, inr, if◌then◌else◌, ltb, length, All, All-impl, Pairwise,
  Pairwise-append, Bool-cases,
}
use sih.Prelude.Int.{ℤ}
use sih.Text.{Bytes, bytes, is_empty, same_bytes}
use sih.Gpu.{
  RowPartition, rows_of, partition_from, partition_rows, scan_ids, is_member, unique_from,
  parse_device_ids,
}

-- Parts that follow each other from one row to another.
abbrev pub Covers : ℕ → ℕ → List RowPartition → Type 0
Covers first last [] = first ≡ last
Covers first last (p ∷ ps) = (p.row_start ≡ first) × Covers p.row_end last ps

partition_from-Covers :
    (base rem i row : ℕ) (ids : List ℕ)
    → rem - i ≤ length ids
    → Covers row (row + length ids * base + (rem - i)) (partition_from base rem i row ids)
unfolding partition_from
partition_from-Covers base rem i row [] h = let none : 0 * base ≡ 0 = mul.zero base in omega arith
partition_from-Covers base rem i row (id ∷ ids) h =
    let size : ℕ = if ltb i rem then 1 else 0 in
    let more : suc (length ids) * base ≡ base + length ids * base = mul.suc (length ids) base in
    let left : size + (rem - suc i) ≡ rem - i = ground arith in
    let bound : rem - suc i ≤ length ids = omega arith in
    let later = partition_from-Covers base rem (suc i) (row + (base + size)) ids bound in
    let last : row + (base + size) + length ids * base + (rem - suc i)
        ≡ row + suc (length ids) * base + (rem - i) =
      omega arith in
    (refl, rw last at later)

-- Devices in their order, with parts that differ by at most one row.
partition_from-devices :
    (base rem i row : ℕ) (ids : List ℕ)
    → (map (λ p. p.device_id) (partition_from base rem i row ids) ≡ ids)
      × All
          (λ p. (p.row_end ≡ p.row_start + base) ⊎ (p.row_end ≡ p.row_start + (base + 1)))
          (partition_from base rem i row ids)
unfolding partition_from
partition_from-devices base rem i row [] = (refl, tt)
partition_from-devices base rem i row (id ∷ ids) =
    let size = if ltb i rem then 1 else 0 in
    let (devices, sizes) = partition_from-devices base rem (suc i) (row + (base + size)) ids in
    (
      ap (λ l. id ∷ l) devices,
      (
        elim (Bool-cases (ltb i rem)) [
          | inl t ↦ inr (rw t refl)
          | inr f ↦ inl (rw f (omega arith))
        ],
        sizes,
      ),
    )

-- Kept numbers stay distinct.
is_member-none : (n : ℕ) (ms : List ℕ) → is_member n ms ≡ false → All (λ m. m ≢ n) ms
unfolding is_member
is_member-none n [] h = tt
is_member-none n (m ∷ ms) h = elim (Bool-cases (n == m)) [
  | inl t ↦ let bad : true ≡ false = rw (t, is_member) at h in absurd (ground arith)
  | inr f ↦ (λ e. ground arith, is_member-none n ms (rw (f, is_member) at h))
]

unique_from-distinct :
    (kept ns : List ℕ)
    → Pairwise (λ a b. a ≢ b) kept
    → Pairwise (λ a b. a ≢ b) (unique_from kept ns)
unfolding unique_from
unique_from-distinct kept [] h = h
unique_from-distinct kept (n ∷ ns) h = elim (Bool-cases (is_member n kept)) [
  | inl t ↦ rw t (unique_from-distinct kept ns h)
  | inr f ↦
      let others = is_member-none n kept f in
      rw f (
        unique_from-distinct (kept ++ n ∷ []) ns
          (Pairwise-append _ kept (n ∷ []) h (tt, tt) (All-impl _ _ kept (λ m e. (e, tt)) others)))
]

nonempty_snoc : (kept : List ℕ) (n : ℕ) → kept ++ n ∷ [] ≢ []
nonempty_snoc [] n e = ground arith
nonempty_snoc (k ∷ ks) n e = ground arith

unique_from-some : (kept ns : List ℕ) → kept ≢ [] → unique_from kept ns ≢ []
unfolding unique_from
unique_from-some kept [] h = h
unique_from-some kept (n ∷ ns) h = elim (Bool-cases (is_member n kept)) [
  | inl t ↦ rw t (unique_from-some kept ns h)
  | inr f ↦ rw f (unique_from-some (kept ++ n ∷ []) ns (nonempty_snoc kept n))
]

-- What the option names is not empty and has no number twice.
abbrev IsNamed : List ℕ → Type 0
IsNamed ids = (ids ≢ []) × Pairwise (λ a b. a ≢ b) ids

zero-IsNamed : IsNamed (0 ∷ [])
zero-IsNamed = ((λ e. ground arith), (tt, tt))

unique_from-IsNamed : (n : ℕ) (ns : List ℕ) → IsNamed (unique_from [] (n ∷ ns))
unfolding unique_from is_member
unique_from-IsNamed n ns =
    (unique_from-some (n ∷ []) ns (λ e. ground arith), unique_from-distinct (n ∷ []) ns (tt, tt))

scanned-IsNamed :
    (ids : List ℕ) → IsNamed (elim ids [ [] ↦ 0 ∷ [] | n ∷ ns ↦ unique_from [] (n ∷ ns) ])
scanned-IsNamed [] = zero-IsNamed
scanned-IsNamed (n ∷ ns) = unique_from-IsNamed n ns

parse_device_ids-IsNamed : (opt : Bytes) → IsNamed (parse_device_ids opt)
unfolding parse_device_ids
parse_device_ids-IsNamed opt = elim (Bool-cases (is_empty opt || same_bytes opt (bytes "auto"))) [
  | inl t ↦ rw t zero-IsNamed
  | inr f ↦ rw f (scanned-IsNamed (scan_ids [] opt))
]

-- The cut of the rows for a list of devices that is not empty.
abbrev IsCut : ℤ → List ℕ → List RowPartition → Type 0
IsCut m ids parts =
    Covers 0 (rows_of m) parts
    × (map (λ p. p.device_id) parts ≡ ids)
    × All
        (λ p.
          (p.row_end ≡ p.row_start + rows_of m / length ids)
          ⊎ (p.row_end ≡ p.row_start + (rows_of m / length ids + 1)))
        parts

partition_rows-IsCut : (m : ℤ) (ids : List ℕ) → ids ≢ [] → IsCut m ids (partition_rows m ids)
unfolding partition_rows
partition_rows-IsCut m [] h = absurd (h refl)
partition_rows-IsCut m (id ∷ ids) h =
    let k = length (id ∷ ids) in
    let base = rows_of m / k in
    let rem = rows_of m % k in
    let small : rem < k = mod-lt (rows_of m) (omega arith) in
    let whole : base * k + rem ≡ rows_of m = div-add-mod' (rows_of m) k in
    let swapped : k * base ≡ base * k = mul_comm k base in
    let total : 0 + k * base + (rem - 0) ≡ rows_of m = omega arith in
    let enough : rem - 0 ≤ k = omega arith in
    let covers = partition_from-Covers base rem 0 0 (id ∷ ids) enough in
    let (devices, sizes) = partition_from-devices base rem 0 0 (id ∷ ids) in
    (rw total at covers, devices, sizes)

-- Whatever the option says, it names at least one device and none twice, and the rows are cut into one
-- part for each, in the order of the devices: the first starts at row zero, each starts where the one
-- before ends, the last ends at the last row, and the sizes are those of an even cut or one more.
pub partition_rows-parse_device_ids :
    (m : ℤ) (opt : Bytes)
    → let ids = parse_device_ids opt in
      let parts = partition_rows m ids in
      (ids ≢ [])
      × Pairwise (λ a b. a ≢ b) ids
      × Covers 0 (rows_of m) parts
      × (map (λ p. p.device_id) parts ≡ ids)
      × All
          (λ p.
            (p.row_end ≡ p.row_start + rows_of m / length ids)
            ⊎ (p.row_end ≡ p.row_start + (rows_of m / length ids + 1)))
          parts
partition_rows-parse_device_ids m opt =
    let (some_id, distinct) = parse_device_ids-IsNamed opt in
    let (covers, devices, sizes) = partition_rows-IsCut m (parse_device_ids opt) some_id in
    (some_id, distinct, covers, devices, sizes)
