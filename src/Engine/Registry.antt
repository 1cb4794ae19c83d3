-- ===== src/Engine/Registry.antt =====
-- src/solver_engine/solver_registry.cpp: the engines in the order of their registration, one for
-- each name.
use Prim.Native.String.{String}
use mathlib.Core.Option.{some-injective}
use text.Mathlib.Text.{◌==◌}
use text.Mathlib.TextEquality.{eq_iff}
use sih.Prelude.{
  false, not, ◌&&◌, ◌≡◌, Option, none, some, List, [], ◌∷◌, map, refl, subst, arith, if◌then◌else◌,
  inl, inr, Bool-cases, All, Pairwise, filter,
}
use sih.Engine.{Model, SolverEngine, supports}

module _ {ℓ} {A : Type ℓ} where
  -- A registered engine of the same name is replaced where it stands.
  unfoldable pub register_engine : SolverEngine A → List (SolverEngine A) → List (SolverEngine A)
  register_engine e [] = e ∷ []
  register_engine e (existing ∷ es) =
      if existing.name == e.name then e ∷ es else existing ∷ register_engine e es

  unfoldable pub find : String → List (SolverEngine A) → Option (SolverEngine A)
  find name [] = none
  find name (e ∷ es) = if e.name == name then some e else find name es

  pub names : List (SolverEngine A) → List String
  names = map (λ e. e.name)

  unfoldable pub candidates : Model → List (SolverEngine A) → List (SolverEngine A)
  candidates m = filter (λ e. supports e m)

  unfoldable pub algorithm_names : List (SolverEngine A) → List String
  algorithm_names es =
      names (filter (λ e. e.capabilities.accepts_lp && not e.capabilities.supports_gpu) es)

  -- Engines registered one after another, from none.
  unfoldable pub register_all :
      List (SolverEngine A) → List (SolverEngine A) → List (SolverEngine A)
  register_all [] registry = registry
  register_all (e ∷ es) registry = register_all es (register_engine e registry)

  -- No two engines have one name.
  abbrev pub HasUniqueNames : List (SolverEngine A) → Type 0
  HasUniqueNames = Pairwise (λ e f. (e.name == f.name) ≡ false)

  All-register_engine {κ} :
      (P : SolverEngine A → Type κ) (e : SolverEngine A) (es : List (SolverEngine A))
      → P e
      → All P es
      → All P (register_engine e es)
  unfolding register_engine
  All-register_engine P e [] h hs = (h, tt)
  All-register_engine P e (x ∷ es) h hs = elim (Bool-cases (x.name == e.name)) [
    | inl same ↦ rw same (h, hs.1)
    | inr other ↦ rw other (hs.0, All-register_engine P e es h hs.1)
  ]

  register_engine-HasUniqueNames :
      (e : SolverEngine A) (es : List (SolverEngine A))
      → HasUniqueNames es
      → HasUniqueNames (register_engine e es)
  unfolding register_engine
  register_engine-HasUniqueNames e [] h = (tt, tt)
  register_engine-HasUniqueNames e (x ∷ es) h = elim (Bool-cases (x.name == e.name)) [
    | inl same ↦
        let name : x.name ≡ e.name = (eq_iff x.name e.name).0 same in rw same (rw name at h.0, h.1)
    | inr other ↦
        rw other (All-register_engine _ e es other h.0, register_engine-HasUniqueNames e es h.1)
  ]

  find-register_engine :
      (name : String) (e : SolverEngine A) (es : List (SolverEngine A))
      → find name (register_engine e es) ≡ (if e.name == name then some e else find name es)
  unfolding find register_engine
  find-register_engine name e [] = refl
  find-register_engine name e (x ∷ es) = ground (
    arith,
    eq_iff x.name e.name,
    eq_iff x.name name,
    eq_iff e.name name,
    find-register_engine name e es,
  )

  -- After a registration the engine is found under its name, every other name finds what it found
  -- before, and the names stay unique.
  pub register_engine_lem :
      (e : SolverEngine A) (es : List (SolverEngine A))
      → HasUniqueNames es
      → ((name : String)
          → find name (register_engine e es) ≡ (if e.name == name then some e else find name es))
        × HasUniqueNames (register_engine e es)
  register_engine_lem e es h =
      ((λ name. find-register_engine name e es), register_engine-HasUniqueNames e es h)

  -- What `find` returns has the name that was asked for, and what it says of each member.
  pub find-All {κ} :
      (P : SolverEngine A → Type κ) (name : String) (es : List (SolverEngine A))
      {e : SolverEngine A}
      → All P es
      → find name es ≡ some e
      → (e.name ≡ name) × P e
  unfolding find
  find-All P name [] h f = ground arith
  find-All P name (x ∷ es) {e} h f = elim (Bool-cases (x.name == name)) [
    | inl same ↦
        let here : x ≡ e = some-injective _ _ (rw same at f) in
        (rw (← here) ((eq_iff x.name name).0 same), subst P here h.0)
    | inr other ↦ find-All P name es h.1 (rw other at f)
  ]
