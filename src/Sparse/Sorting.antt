-- ===== src/Sparse/Sorting.antt =====
-- What `std::sort` promises of the entries of one column, whose rows it compares: the order of equal
-- rows is open.
use mathlib.Core.List.{Permᴰ}
use mathlib.Core.List.Permᴰ
use mathlib.Core.List.Permᴰ.{nil, cons, swap, trans}
use sih.Prelude.{
  ℕ, suc, ◌≡◌, Bool, List, [], ◌∷◌, refl, ap, subst, ◌∙◌, arith, ltb, ◌==◌, length, All, All-impl,
  Pairwise, inl, inr, Bool-cases,
}
use sih.Prelude.Sort.{sort, insert_sorted, IsWeakOrder, sort-Sorted}
use sih.Sparse.Counting.{of_key}
use sih.Sparse.Counting.Slots.{of_key-eq, of_key-ne}
use sih.Sparse.Sums.{RowsAscend}

pub record IsSort {ℓ} {D : Type ℓ} (sort : List (ℕ × D) → List (ℕ × D)) : Type ℓ where
  pub ascends : (es : List (ℕ × D)) → RowsAscend (sort es)
  pub permutes : (es : List (ℕ × D)) → Permᴰ es (sort es)

module _ {ℓ} {A : Type ℓ} where
  pub Perm-All {κ} : (P : A → Type κ) {xs ys : List A} → Permᴰ xs ys → All P xs → All P ys
  Perm-All P nil h = tt
  Perm-All P (cons e p) h = (subst P e h.0, Perm-All P p h.1)
  Perm-All P (swap e f) h = (subst P f h.1.0, (subst P e h.0, h.1.1))
  Perm-All P (trans p q) h = Perm-All P q (Perm-All P p h)

  pub Perm-length : {xs ys : List A} → Permᴰ xs ys → length xs ≡ length ys
  Perm-length nil = refl
  Perm-length (cons e p) = ap suc (Perm-length p)
  Perm-length (swap e f) = refl
  Perm-length (trans p q) = Perm-length p ∙ Perm-length q

  of_key-cons_perm :
      (k : ℕ) (e : ℕ × A) (xs ys : List (ℕ × A))
      → Permᴰ (of_key k xs) (of_key k ys)
      → Permᴰ (of_key k (e ∷ xs)) (of_key k (e ∷ ys))
  of_key-cons_perm k (j, a) xs ys p = elim (Bool-cases (j == k)) [
    | inl t ↦ rw (of_key-eq j k a xs t, of_key-eq j k a ys t) (cons refl p)
    | inr f ↦ rw (of_key-ne j k a xs f, of_key-ne j k a ys f) p
  ]

  of_key-swap_perm :
      (k : ℕ) (e f : ℕ × A) (xs : List (ℕ × A))
      → Permᴰ (of_key k (e ∷ f ∷ xs)) (of_key k (f ∷ e ∷ xs))
  of_key-swap_perm k (i, a) (j, b) xs =
      let same = Permᴰ.refl (of_key k xs) in
      elim (Bool-cases (i == k)) [
        | inr f ↦
            rw (of_key-ne i k a ((j, b) ∷ xs) f)
              (of_key-cons_perm k (j, b) xs ((i, a) ∷ xs) (rw (of_key-ne i k a xs f) same))
        | inl t ↦ elim (Bool-cases (j == k)) [
          | inr f ↦
              rw (of_key-ne j k b ((i, a) ∷ xs) f)
                (of_key-cons_perm k (i, a) ((j, b) ∷ xs) xs (rw (of_key-ne j k b xs f) same))
          | inl u ↦
              rw
                (
                  of_key-eq i k a ((j, b) ∷ xs) t,
                  of_key-eq j k b ((i, a) ∷ xs) u,
                  of_key-eq j k b xs u,
                  of_key-eq i k a xs t,
                )
                (swap refl refl)
        ]
      ]

  -- The elements of a key are permuted among themselves.
  pub Perm-of_key : (k : ℕ) {xs ys : List (ℕ × A)} → Permᴰ xs ys → Permᴰ (of_key k xs) (of_key k ys)
  Perm-of_key k nil = nil
  Perm-of_key k (cons {a = a} e p) = rw (← e) (of_key-cons_perm k a _ _ (Perm-of_key k p))
  Perm-of_key k (swap {a = a} {b = b} {l = l} e f) = rw (← e, ← f) (of_key-swap_perm k a b l)
  Perm-of_key k (trans p q) = trans (Perm-of_key k p) (Perm-of_key k q)

module _ {ℓ} {A : Type ℓ} (before : A → A → Bool) where
  insert_sorted-Perm : (x : A) (xs : List A) → Permᴰ (x ∷ xs) (insert_sorted before x xs)
  unfolding insert_sorted
  insert_sorted-Perm x [] = cons refl nil
  insert_sorted-Perm x (y ∷ ys) = elim (Bool-cases (before y x)) [
    | inl t ↦ rw t (trans (swap refl refl) (cons refl (insert_sorted-Perm x ys)))
    | inr f ↦ rw f (Permᴰ.refl (x ∷ y ∷ ys))
  ]

  pub sort-Perm : (xs : List A) → Permᴰ xs (sort before xs)
  unfolding sort
  sort-Perm [] = nil
  sort-Perm (x ∷ xs) = trans (cons refl (sort-Perm xs)) (insert_sorted-Perm x (sort before xs))

-- An insertion sort on the rows meets the promise.
abbrev pub sort_rows {ℓ} : {D : Type ℓ} → List (ℕ × D) → List (ℕ × D)
sort_rows = sort (λ a b. ltb a.0 b.0)

Pairwise-impl {ℓ κ ι} :
    {A : Type ℓ} (R : A → A → Type κ) (S : A → A → Type ι) (xs : List A)
    → ((a b : A) → R a b → S a b)
    → Pairwise R xs
    → Pairwise S xs
Pairwise-impl R S [] f h = tt
Pairwise-impl R S (x ∷ xs) f h = (All-impl (R x) (S x) xs (f x) h.0, Pairwise-impl R S xs f h.1)

rows-IsWeakOrder {ℓ} : {D : Type ℓ} → IsWeakOrder (λ (a b : ℕ × D). ltb a.0 b.0)
rows-IsWeakOrder = record { asym = λ a b h. ground arith; skips = λ a b c h k. ground arith }

pub sort_rows-IsSort {ℓ} : {D : Type ℓ} → IsSort (sort_rows {D = D})
sort_rows-IsSort = record {
  ascends = λ es.
      Pairwise-impl _ _ (sort_rows es) (λ a b h. ground arith)
        (sort-Sorted (λ a b. ltb a.0 b.0) es rows-IsWeakOrder);
  permutes = sort-Perm (λ a b. ltb a.0 b.0);
}
