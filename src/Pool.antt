-- ===== src/Pool.antt =====
-- src/mip/solution_pool.cpp: the good integer points that the tree found, best first. A point is
-- offered with its key, which `key_of` computes by `std::llround`, a function parameter here.
use Prim.Native.Nat.{min}
use sih.Prelude.{
  ℕ, zero, suc, ◌+◌, ◌-◌, Bool, true, false, not, ◌&&◌, ◌||◌, Option, none, some, List, [], ◌∷◌,
  ◌++◌, map, if◌then◌else◌, ◌==◌, ltb, leb, length, get_or, erase_at,
}
use sih.Prelude.Double.{Double, is_finite}
use sih.Prelude.Double
use sih.Prelude.Int.{ℤ, pos, negsuc, ℤ_eq}
pub mod Keys
pub mod Evict
pub mod Members
pub mod Valid
pub mod Report

pub record Entry {ℓ} (D : Type ℓ) : Type ℓ where
  pub objective : D
  pub x : List D
  pub key : List ℤ

pub record SolutionPool {ℓ} (D : Type ℓ) : Type ℓ where
  pub integer_columns : List ℕ
  pub capacity : ℕ
  pub diversity : Bool
  pub entries : List (Entry D)

-- `a == b` of two assignments.
unfoldable pub same_key : List ℤ → List ℤ → Bool
same_key [] [] = true
same_key (a ∷ u) (b ∷ v) = ℤ_eq a b && same_key u v
same_key _ _ = false

-- The columns of the shorter assignment, then those that only the longer one has.
unfoldable pub hamming : List ℤ → List ℤ → ℕ
hamming [] b = length b
hamming (x ∷ a) [] = suc (length a)
hamming (x ∷ a) (y ∷ b) = (if ℤ_eq x y then 0 else 1) + hamming a b

-- `nearest <= victim_nearest`, where `none` is the maximal `size_t`.
unfoldable pub at_most : Option ℕ → Option ℕ → Bool
at_most a none = true
at_most none (some b) = false
at_most (some a) (some b) = leb a b

-- `std::min(nearest, distance)`, where `none` is the maximal `size_t`.
unfoldable pub nearer : Option ℕ → ℕ → Option ℕ
nearer none distance = some distance
nearer (some b) distance = some (min b distance)

module _ {ℓ} {D : Type ℓ} where
  unfoldable pub solution_pool : List ℕ → ℕ → Bool → SolutionPool D
  solution_pool columns capacity diversity = record {
    integer_columns = columns;
    capacity = capacity;
    diversity = diversity;
    entries = [];
  }

  unfoldable pub full : SolutionPool D → Bool
  full p = ltb 0 p.capacity && leb p.capacity (length p.entries)

  -- The inner loop of `evict_one`: the distance of member `k` to its nearest neighbour, where the
  -- list stands from position `other` on. `none` is the maximal `size_t`.
  unfoldable pub nearest : List ℤ → ℕ → ℕ → List (Entry D) → Option ℕ → Option ℕ
  nearest key k other [] best = best
  nearest key k other (e ∷ es) best =
      nearest key k (suc other) es (if other == k then best else nearer best (hamming key e.key))

  -- The outer loop over the members from position `k` on.
  unfoldable pub victim : List (Entry D) → ℕ → List (Entry D) → ℕ → Option ℕ → ℕ
  victim all k [] best best_nearest = best
  victim all k (e ∷ es) best best_nearest =
      let here = nearest e.key k 0 all none in
      let closer = at_most here best_nearest in
      victim all (suc k) es (if closer then k else best) (if closer then here else best_nearest)

  -- `entries_` without its last member.
  unfoldable pub pop_back : List (Entry D) → List (Entry D)
  pop_back [] = []
  pop_back (e ∷ []) = []
  pop_back (e ∷ e' ∷ es) = e ∷ pop_back (e' ∷ es)

  unfoldable pub evict_one : Bool → List (Entry D) → List (Entry D)
  unfolding victim pop_back
  evict_one diversity [] = []
  evict_one diversity (best ∷ rest) =
      if not diversity || ltb (length (best ∷ rest)) 3
      then pop_back (best ∷ rest)
      else erase_at (best ∷ rest) (victim (best ∷ rest) 1 rest (length rest) none)

  -- `while (entries_.size() > capacity_) evict_one();` on fuel, one unit for each member.
  unfoldable pub evict_down : Bool → ℕ → ℕ → List (Entry D) → List (Entry D)
  evict_down diversity capacity zero es = es
  evict_down diversity capacity (suc fuel) es =
      let rest = evict_down diversity capacity fuel (evict_one diversity es) in
      if ltb capacity (length es) then rest else es

  unfoldable pub key_of : (D → ℤ) → D → List ℕ → List D → List ℤ
  key_of llround absent columns x = map (λ j. llround (get_or x j absent)) columns

module _ {ℓ} {D : Type ℓ} ⦃d : Double D⦄ where
  -- The search for a member with the same key: `none` when the offer is no better than it, and
  -- otherwise the members that stay.
  unfoldable pub drop_duplicate : D → List ℤ → List (Entry D) → Option (List (Entry D))
  drop_duplicate objective key [] = some []
  drop_duplicate objective key (e ∷ es) =
      if same_key e.key key
      then (if d.le e.objective objective then none else some es)
      else (elim (drop_duplicate objective key es) [ none ↦ none | some rest ↦ some (e ∷ rest) ])

  -- `std::upper_bound` and `insert`: in front of the first member that is worse.
  unfoldable pub insert_entry : Entry D → List (Entry D) → List (Entry D)
  insert_entry new [] = new ∷ []
  insert_entry new (e ∷ es) =
      if d.lt new.objective e.objective then new ∷ e ∷ es else e ∷ insert_entry new es

  unfoldable pub offer : (D → ℤ) → D → List D → SolutionPool D → SolutionPool D
  offer llround objective x p =
      let key = key_of llround d.nought p.integer_columns x in
      let new : Entry D = record { objective = objective; x = x; key = key } in
      if p.capacity == 0 then p else (elim (drop_duplicate objective key p.entries) [
        | none ↦ p
        | some kept ↦
            let grown = insert_entry new kept in
            record p { entries = evict_down p.diversity p.capacity (length grown) grown }
      ])

  -- `entries_.back().objective`, with what the code never reads for no member.
  abbrev pub last_objective : D → List (Entry D) → D
  last_objective o [] = o
  last_objective o (e ∷ es) = last_objective e.objective es

  unfoldable pub cutoff : SolutionPool D → D
  unfolding full
  cutoff p = if p.diversity || not (full p) then d.infinity else last_objective d.infinity p.entries

  -- The loop of `finish`, where `size` members are out already.
  pub finish_from : ℕ → ℕ → List ℤ → D → List (Entry D) → List (Entry D)
  finish_from capacity size first limit [] = []
  finish_from capacity size first limit (e ∷ es) =
      let skipped = same_key e.key first || (is_finite limit && d.lt limit e.objective) in
      let rest = finish_from capacity (if skipped then size else suc size) first limit es in
      if leb capacity size then [] else if skipped then rest else e ∷ rest

  unfoldable pub finish : (D → ℤ) → D → List D → D → SolutionPool D → List (Entry D)
  finish llround objective x relative_gap p =
      let key = key_of llround d.nought p.integer_columns x in
      let first : Entry D = record { objective = objective; x = x; key = key } in
      let limit = d.add objective (d.mul relative_gap (Double.max d.one (d.abs objective))) in
      let rest = finish_from p.capacity 1 key limit p.entries in
      if p.capacity == 0 then [] else first ∷ rest
