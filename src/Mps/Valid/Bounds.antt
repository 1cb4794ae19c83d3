-- ===== src/Mps/Valid/Bounds.antt =====
-- `do_bounds` of src/io/mps_bounds.cpp keeps the parser well formed: an implicit lower bound never
-- ends up above the upper one.
use sih.Prelude.{
  ℕ, ◌<◌, ◌≡◌, ◌∙◌, Bool, true, false, not, ◌&&◌, ◌==◌, refl, sym, arith, inl, inr, Bool-cases,
  length, length-set, get_or, set,
}
use sih.Prelude.Double.{Double, ◌≼◌, IsNumber, IsOrdered}
use sih.Prelude.Outcome.{Holds, done-Holds, failed-Holds}
use sih.Mps.{MpsParser}
use sih.Mps.Bounds.{
  BoundType, up, lo, fx, fr, mi, pl, bv, li, ui, sc, set_lower, set_upper, set_upper_freeing,
  set_integer, apply_bound,
}
use sih.Mps.Valid.{IsValid, BoundOk}
use sih.Mps.Valid.Lookups.{get_or-set}

module _ {ℓ} {D : Type ℓ} ⦃d : Double D⦄ where
  set_lower-IsValid :
      (p : MpsParser D) (u : ℕ) (value : D)
      → u < length p.col_cost
      → IsValid p
      → IsValid (set_lower p u value)
  unfolding set_lower
  set_lower-IsValid p u value h (rows, cols, entries, hessian, lower, bounds) = (
    rows,
    record {
      lower_size = length-set p.col_lower u value ∙ cols.lower_size;
      upper_size = cols.upper_size;
      type_size = cols.type_size;
      explicit_size = length-set p.col_lower_explicit u true ∙ cols.explicit_size;
      col_names_size = cols.col_names_size;
      col_refs = cols.col_refs;
    },
    entries,
    hessian,
    lower,
    λ i.
        rw
          (
            get_or-set p.col_lower_explicit u i true false (omega (arith, h, cols.explicit_size)),
            get_or-set p.col_lower u i value d.nought (omega (arith, h, cols.lower_size)),
          )
          (elim (Bool-cases (u == i)) [ inl t ↦ rw t (inl refl) | inr f ↦ rw f (bounds i) ]),
  )

  set_upper-IsValid :
      (p : MpsParser D) (u : ℕ) (value : D)
      → u < length p.col_cost
      → BoundOk (get_or p.col_lower_explicit u false) (get_or p.col_lower u d.nought) value
      → IsValid p
      → IsValid (set_upper p u value)
  unfolding set_upper
  set_upper-IsValid p u value h ok (rows, cols, entries, hessian, lower, bounds) = (
    rows,
    record {
      lower_size = cols.lower_size;
      upper_size = length-set p.col_upper u value ∙ cols.upper_size;
      type_size = cols.type_size;
      explicit_size = cols.explicit_size;
      col_names_size = cols.col_names_size;
      col_refs = cols.col_refs;
    },
    entries,
    hessian,
    lower,
    λ i.
        rw (get_or-set p.col_upper u i value d.infinity (omega (arith, h, cols.upper_size)))
          (elim (Bool-cases (u == i)) [
            | inl t ↦ let same : u ≡ i = ground arith in rw (t, sym same) ok
            | inr f ↦ rw f (bounds i)
          ]),
  )

  -- An explicit lower bound allows every upper bound.
  set_both-IsValid :
      (p : MpsParser D) (u : ℕ) (low high : D)
      → u < length p.col_cost
      → IsValid p
      → IsValid (set_upper (set_lower p u low) u high)
  unfolding set_lower
  set_both-IsValid p u low high h v =
      set_upper-IsValid (set_lower p u low) u high h
        (rw (get_or-set p.col_lower_explicit u u true false (omega (arith, h, v.1.explicit_size)))
          (inl (ground arith)))
        (set_lower-IsValid p u low h v)

  -- The upper and the lower bound of a column written together.
  set_free-IsValid :
      (p : MpsParser D) (u : ℕ) (low high : D)
      → u < length p.col_cost
      → low ≼ high
      → low ≡ d.neg d.infinity
      → IsValid p
      → IsValid (record p { col_upper = set p.col_upper u high; col_lower = set p.col_lower u low })
  set_free-IsValid p u low high h below form (rows, cols, entries, hessian, lower, bounds) = (
    rows,
    record {
      lower_size = length-set p.col_lower u low ∙ cols.lower_size;
      upper_size = length-set p.col_upper u high ∙ cols.upper_size;
      type_size = cols.type_size;
      explicit_size = cols.explicit_size;
      col_names_size = cols.col_names_size;
      col_refs = cols.col_refs;
    },
    entries,
    hessian,
    lower,
    λ i.
        rw
          (
            get_or-set p.col_upper u i high d.infinity (omega (arith, h, cols.upper_size)),
            get_or-set p.col_lower u i low d.nought (omega (arith, h, cols.lower_size)),
          )
          (elim (Bool-cases (u == i)) [
            | inl t ↦ rw t (inr (below, inr form))
            | inr f ↦ rw f (bounds i)
          ]),
  )

  -- A number that is not negative is above the implicit lower bounds.
  above_implicit :
      (explicit : Bool) (lower upper value : D)
      → IsOrdered D
      → IsNumber value
      → d.lt value d.nought && not explicit ≡ false
      → BoundOk explicit lower upper
      → BoundOk explicit lower value
  above_implicit explicit lower upper value o n f (inl e) = inl e
  above_implicit true lower upper value o n f (inr (below, form)) = inl refl
  above_implicit false lower upper value o n f (inr (below, inl form)) =
      let order = o.lt-eq-not-le value d.nought n o.nought-IsNumber in
      let above : d.nought ≼ value = ground arith in inr (rw form above, inl form)
  above_implicit false lower upper value o n f (inr (below, inr form)) =
      inr (rw form (o.infinity-bottom value n), inr form)

  set_upper_freeing-IsValid :
      (p : MpsParser D) (u : ℕ) (value : D)
      → IsOrdered D
      → u < length p.col_cost
      → IsNumber value
      → IsValid p
      → IsValid (set_upper_freeing p u value)
  unfolding set_upper_freeing set_upper
  set_upper_freeing-IsValid p u value o h n v =
      let explicit = get_or p.col_lower_explicit u false in
      elim (Bool-cases (d.lt value d.nought && not explicit)) [
        | inl t ↦
            rw t
              (set_free-IsValid p u (d.neg d.infinity) value h (o.infinity-bottom value n) refl v)
        | inr f ↦
            rw f (set_upper-IsValid p u value h (above_implicit explicit _ _ value o n f (v.5 u)) v)
      ]

  set_integer-IsValid : (p : MpsParser D) (u : ℕ) → IsValid p → IsValid (set_integer p u)
  unfolding set_integer
  set_integer-IsValid p u (rows, cols, entries, hessian, lower, bounds) = (
    rows,
    record {
      lower_size = cols.lower_size;
      upper_size = cols.upper_size;
      type_size = length-set p.col_type u _ ∙ cols.type_size;
      explicit_size = cols.explicit_size;
      col_names_size = cols.col_names_size;
      col_refs = cols.col_refs;
    },
    entries,
    hessian,
    lower,
    bounds,
  )

  -- No upper bound is above every lower one.
  under_infinity :
      (explicit : Bool) (lower upper : D)
      → IsOrdered D
      → BoundOk explicit lower upper
      → BoundOk explicit lower d.infinity
  under_infinity explicit lower upper o (inl e) = inl e
  under_infinity explicit lower upper o (inr (below, form)) =
      inr (o.infinity-top lower (o.numbers_of_le lower upper below).0, form)

  pub apply_bound-IsValid :
      (p : MpsParser D) (type : BoundType) (u : ℕ) (value : D)
      → IsOrdered D
      → u < length p.col_cost
      → IsNumber value
      → IsValid p
      → Holds IsValid (apply_bound p type u value)
  unfolding apply_bound set_integer
  apply_bound-IsValid p up u value o h n v =
      done-Holds _ _ _ (set_upper_freeing-IsValid p u value o h n v)
  apply_bound-IsValid p lo u value o h n v = done-Holds _ _ _ (set_lower-IsValid p u value h v)
  apply_bound-IsValid p fx u value o h n v = done-Holds _ _ _ (set_both-IsValid p u value value h v)
  apply_bound-IsValid p fr u value o h n v = done-Holds _ _ _ (set_both-IsValid p u _ _ h v)
  apply_bound-IsValid p mi u value o h n v = done-Holds _ _ _ (set_lower-IsValid p u _ h v)
  apply_bound-IsValid p pl u value o h n v =
      done-Holds _ _ _ (set_upper-IsValid p u _ h (under_infinity _ _ _ o (v.5 u)) v)
  apply_bound-IsValid p bv u value o h n v =
      done-Holds _ _ _ (set_both-IsValid (set_integer p u) u _ _ h (set_integer-IsValid p u v))
  apply_bound-IsValid p li u value o h n v =
      done-Holds _ _ _ (set_lower-IsValid (set_integer p u) u value h (set_integer-IsValid p u v))
  apply_bound-IsValid p ui u value o h n v =
      done-Holds _ _ _
        (set_upper_freeing-IsValid (set_integer p u) u value o h n (set_integer-IsValid p u v))
  apply_bound-IsValid p sc u value o h n v = failed-Holds _ _
