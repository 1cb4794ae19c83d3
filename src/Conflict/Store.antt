-- ===== src/Conflict/Store.antt =====
-- src/mip/conflict.cpp and conflict.hpp: the store of learned conflicts, its capacity and its
-- eviction. The counters are natural numbers; `std::set` is a list of its members.
use mathlib.Core.List.{Memᴰ}
use sih.Prelude.{
  ℕ, zero, suc, ◌+◌, ◌/◌, ◌≡◌, Bool, true, false, not, ◌&&◌, ◌||◌, ◌==◌, List, [], ◌∷◌, ◌++◌, map,
  if◌then◌else◌, ltb, leb, length, filter,
}
use sih.Prelude.Double.{Double}
use sih.Prelude.Sort.{sort}
use sih.Conflict.{ConflictLiteral, less}
pub mod Usefulness
pub mod Valid

pub data ConflictSource : Type 0 where
  propagation lp : ConflictSource

pub record Entry {ℓ} (D : Type ℓ) : Type ℓ where
  pub literals : List (ConflictLiteral D)
  pub source : ConflictSource
  pub id : ℕ
  pub created : ℕ
  pub last_used : ℕ
  pub uses : ℕ

pub record ConflictStore {ℓ} (D : Type ℓ) : Type ℓ where
  pub capacity : ℕ
  pub entries : List (Entry D)
  pub known : List (List (ConflictLiteral D))
  pub next_id : ℕ
  pub evicted : ℕ
  pub duplicates : ℕ

module _ {ℓ} {D : Type ℓ} where
  -- The total order of the sort in `evict`.
  unfoldable pub less_useful : Entry D → Entry D → Bool
  less_useful x y =
      if not (x.uses == y.uses)
      then ltb x.uses y.uses
      else if not (x.last_used == y.last_used)
      then ltb x.last_used y.last_used
      else ltb x.id y.id

  unfoldable pub indexed : ℕ → List (Entry D) → List (ℕ × Entry D)
  indexed k [] = []
  indexed k (e ∷ es) = (k, e) ∷ indexed (suc k) es

  unfoldable pub rank_before : ℕ × Entry D → ℕ × Entry D → Bool
  rank_before x y = less_useful x.1 y.1

  -- `drop[k]`: the position is one of the first `count` of the sorted order.
  unfoldable pub is_dropped : ℕ → List (ℕ × Entry D) → ℕ → Bool
  is_dropped zero order k = false
  is_dropped (suc count) [] k = false
  is_dropped (suc count) (x ∷ order) k = (x.0 == k) || is_dropped count order k

  unfoldable pub evicted_count : ConflictStore D → ℕ
  evicted_count s = let tenth = length s.entries / 10 in if leb 1 tenth then tenth else 1

module _ {ℓ} {D : Type ℓ} ⦃d : Double D⦄ where
  -- `operator<` of two vectors, and the equivalence that `std::set` takes from it.
  unfoldable pub lex_less : List (ConflictLiteral D) → List (ConflictLiteral D) → Bool
  lex_less xs [] = false
  lex_less [] (y ∷ ys) = true
  lex_less (x ∷ xs) (y ∷ ys) =
      let rest = lex_less xs ys in if less x y then true else if less y x then false else rest

  unfoldable pub same_literals : List (ConflictLiteral D) → List (ConflictLiteral D) → Bool
  same_literals xs ys = not (lex_less xs ys) && not (lex_less ys xs)

  unfoldable pub contains : List (List (ConflictLiteral D)) → List (ConflictLiteral D) → Bool
  contains [] literals = false
  contains (k ∷ known) literals = same_literals k literals || contains known literals

  unfoldable pub erase :
      List (List (ConflictLiteral D)) → List (ConflictLiteral D) → List (List (ConflictLiteral D))
  erase known literals = filter (λ k. not (same_literals k literals)) known

  -- The loop that forgets the dropped entries and keeps the others.
  unfoldable pub sweep :
      (ℕ → Bool)
      → List (ℕ × Entry D)
      → List (List (ConflictLiteral D))
      → List (Entry D) × List (List (ConflictLiteral D))
  sweep drop [] known = ([], known)
  sweep drop (x ∷ xs) known =
      let gone = sweep drop xs (erase known x.1.literals) in
      let (kept, left) = sweep drop xs known in if drop x.0 then gone else (x.1 ∷ kept, left)

  unfoldable pub evict : ConflictStore D → ConflictStore D
  evict s =
      let count = evicted_count s in
      let order = sort rank_before (indexed 0 s.entries) in
      let (kept, left) = sweep (is_dropped count order) (indexed 0 s.entries) s.known in
      record s { entries = kept; known = left; evicted = s.evicted + count }

  -- A new entry behind the others, under the next id.
  unfoldable pub push :
      ConflictStore D → List (ConflictLiteral D) → ConflictSource → ℕ → ConflictStore D
  push s literals source node =
      let entry : Entry D = record {
        literals = literals;
        source = source;
        id = s.next_id;
        created = node;
        last_used = node;
        uses = 0;
      } in
      record s {
        known = literals ∷ s.known;
        next_id = suc s.next_id;
        entries = s.entries ++ entry ∷ [];
      }

  unfoldable pub make_room : ConflictStore D → ConflictStore D
  make_room s = if leb s.capacity (length s.entries) then evict s else s

  unfoldable pub add :
      ConflictStore D → List (ConflictLiteral D) → ConflictSource → ℕ → Bool × ConflictStore D
  add s literals source node =
      if s.capacity == 0
      then (false, s)
      else if contains s.known literals
      then (false, record s { duplicates = suc s.duplicates })
      else (true, push (make_room s) literals source node)
