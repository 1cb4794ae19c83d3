-- ===== src/Text/Tokens.antt =====
-- What `tokenize` of src/io/token.hpp promises.
use mathlib.Core.List.{append-nil, append_assoc}
use sih.Prelude.{
  ℕ, ◌≡◌, ◌∙◌, true, false, not, List, [], ◌∷◌, ◌++◌, refl, sym, ap, arith, inl, inr, Bool-cases,
  All, All-append, filter,
}
use sih.Text.{Bytes, is_empty, is_space, scan, tokenize}

-- A token: at least one byte, and no blank.
abbrev pub IsToken : Bytes → Type 0
IsToken w = (is_empty w ≡ false) × All (λ c. is_space c ≡ false) w

abbrev pub concat : List Bytes → Bytes
concat [] = []
concat (w ∷ ws) = w ++ concat ws

abbrev pub visible : Bytes → Bytes
visible s = filter (λ c. not (is_space c)) s

scan-IsToken : (word s : Bytes) → All (λ c. is_space c ≡ false) word → All IsToken (scan word s)
unfolding scan is_empty
scan-IsToken [] [] h = tt
scan-IsToken (w ∷ ws) [] h = ((refl, h), tt)
scan-IsToken word (c ∷ cs) h = elim (Bool-cases (is_space c)) [
  | inl t ↦ elim (Bool-cases (is_empty word)) [
    | inl e ↦ rw (t, e) (scan-IsToken [] cs tt)
    | inr f ↦ rw (t, f) ((f, h), scan-IsToken [] cs tt)
  ]
  | inr f ↦ rw f (scan-IsToken (word ++ c ∷ []) cs (All-append _ word _ h (f, tt)))
]

empty_eq : (word : Bytes) → is_empty word ≡ true → word ≡ []
unfolding is_empty
empty_eq [] h = refl
empty_eq (c ∷ cs) h = ground arith

concat-scan : (word s : Bytes) → concat (scan word s) ≡ word ++ visible s
unfolding scan is_empty
concat-scan [] [] = refl
concat-scan (w ∷ ws) [] = refl
concat-scan word (c ∷ cs) = elim (Bool-cases (is_space c)) [
  | inl t ↦ elim (Bool-cases (is_empty word)) [
    | inl e ↦ rw (t, e, empty_eq word e, visible, filter) (concat-scan [] cs)
    | inr f ↦ rw (t, f, visible, filter) (ap (λ s. word ++ s) (concat-scan [] cs))
  ]
  | inr f ↦
      rw (f, visible, filter)
        (concat-scan (word ++ c ∷ []) cs ∙ append_assoc word (c ∷ []) (visible cs))
]

-- Words with one blank behind each.
abbrev pub spaced : ℕ → List Bytes → Bytes
spaced blank [] = []
spaced blank (w ∷ ws) = w ++ blank ∷ spaced blank ws

scan-blank :
    (word w s : Bytes) (blank : ℕ)
    → is_space blank ≡ true
    → is_empty (word ++ w) ≡ false
    → All (λ c. is_space c ≡ false) w
    → scan word (w ++ blank ∷ s) ≡ (word ++ w) ∷ scan [] s
unfolding scan
scan-blank word [] s blank b h k =
    let f : is_empty word ≡ false = rw (append-nil word) at h in rw (b, f, append-nil word) refl
scan-blank word (c ∷ cs) s blank b h k =
    let moved : (word ++ c ∷ []) ++ cs ≡ word ++ c ∷ cs = append_assoc word (c ∷ []) cs in
    rw (k.0, sym moved) (scan-blank (word ++ c ∷ []) cs s blank b (rw moved h) k.1)

scan-spaced :
    (blank : ℕ) (words : List Bytes)
    → is_space blank ≡ true
    → All IsToken words
    → scan [] (spaced blank words) ≡ words
unfolding scan is_empty
scan-spaced blank [] b h = refl
scan-spaced blank (w ∷ ws) b h =
    scan-blank [] w (spaced blank ws) blank b h.0.0 h.0.1
    ∙ ap (λ s. w ∷ s) (scan-spaced blank ws b h.1)

-- The tokens of a line are not empty and hold no blank, together they are the line without its
-- blanks, and words written with a blank behind each are read back as they are.
pub tokenize_lem :
    (line : Bytes)
    → All IsToken (tokenize line)
      × (concat (tokenize line) ≡ visible line)
      × ((blank : ℕ) (words : List Bytes)
          → is_space blank ≡ true
          → All IsToken words
          → tokenize (spaced blank words) ≡ words)
unfolding tokenize
tokenize_lem line = (scan-IsToken [] line tt, concat-scan [] line, scan-spaced)
