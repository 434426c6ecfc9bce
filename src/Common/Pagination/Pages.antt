-- ===== src/Common/Pagination/Pages.antt =====
-- A walk along the pages of apps/api/src/common/pagination.util.ts.
use fulfill_os.Prelude.{
  ℕ, zero, suc, ◌≡◌, refl, ap, ◌∙◌, Bool, true, false, none, some, List, [], ◌∷◌, ◌++◌, arith, ltb,
  length, take, filterb, All, Option-cases, Bool-cases, inl, inr,
}
use fulfill_os.Common.Pagination.{CursorFields, keyset_before, last_of, paginate}

pub take-take : {A : Type 0} (n : ℕ) (xs : List A) → take n (take (suc n) xs) ≡ take n xs
take-take zero [] = refl
take-take zero (x ∷ xs) = refl
take-take (suc n) [] = refl
take-take (suc n) (x ∷ xs) = ap (λ t. x ∷ t) (take-take n xs)

pub last_of-All :
    {A : Type 0} (P : A → Type 0) (n : ℕ) (xs : List A) (y : A)
    → last_of (take n xs) ≡ some y
    → All P xs
    → P y
unfolding last_of
last_of-All P zero xs y h a = cc
last_of-All P (suc n) [] y h a = cc
last_of-All P (suc zero) (x ∷ xs) y h a = let same : y ≡ x = ground (arith, h) in rw same a.0
last_of-All P (suc (suc n)) (x ∷ []) y h a = let same : y ≡ x = ground (arith, h) in rw same a.0
last_of-All P (suc (suc n)) (x ∷ z ∷ xs) y h a = last_of-All P (suc n) (z ∷ xs) y h a.1

module _ {A : Type 0} (fields : A → CursorFields) where
  abbrev pub is_after : CursorFields → A → Bool
  is_after c x = keyset_before c (fields x).created_at (fields x).id

  -- Every row stands strictly after those before it.
  abbrev pub IsNewestFirst : List A → Type 0
  IsNewestFirst [] = Unit
  IsNewestFirst (x ∷ xs) = All (λ y. is_after (fields x) y ≡ true) xs × IsNewestFirst xs

  filterb-All :
      (c : CursorFields) (xs : List A)
      → All (λ y. is_after c y ≡ true) xs
      → filterb (is_after c) xs ≡ xs
  filterb-All c [] a = refl
  filterb-All c (x ∷ xs) a = ground (arith, filterb-All c xs a.1, a.0)

  after-last :
      (n : ℕ) (xs : List A) (y : A)
      → IsNewestFirst xs
      → last_of (take n xs) ≡ some y
      → take n xs ++ filterb (is_after (fields y)) xs ≡ xs
  unfolding last_of
  after-last zero xs y d h = cc
  after-last (suc n) [] y d h = cc
  after-last (suc zero) (x ∷ xs) y d h =
      let same : y ≡ x = ground (arith, h) in
      let off : is_after (fields y) x ≡ false = rw same (ground arith) in
      rw off (
        ap (λ t. x ∷ t)
          (ap (λ z. filterb (is_after (fields z)) xs) same ∙ filterb-All (fields x) xs d.0))
  after-last (suc (suc n)) (x ∷ []) y d h =
      let same : y ≡ x = ground (arith, h) in
      let off : is_after (fields y) x ≡ false = rw same (ground arith) in rw off refl
  after-last (suc (suc n)) (x ∷ z ∷ xs) y d h =
      let older = last_of-All (λ y. is_after (fields x) y ≡ true) (suc n) (z ∷ xs) y h d.0 in
      let rest = after-last (suc n) (z ∷ xs) y d.1 h in
      let off : is_after (fields y) x ≡ false = ground (arith, older) in
      rw off (ap (λ t. x ∷ t) rest)

  pub items-more :
      (xs : List A) (n : ℕ)
      → ltb n (length (take (suc n) xs)) ≡ true
      → (paginate fields (take (suc n) xs) n).items ≡ take n xs
  unfolding paginate
  items-more xs n more = rw more (take-take n xs)

  next_cursor-none :
      (xs : List A) (n : ℕ)
      → last_of (take n xs) ≡ none
      → (paginate fields (take (suc n) xs) n).next_cursor ≡ none
  unfolding paginate
  next_cursor-none xs n empty = elim (Bool-cases (ltb n (length (take (suc n) xs)))) [
    | inr last_page ↦ rw last_page refl
    | inl more ↦ rw (more, take-take n xs) (rw empty refl)
  ]

  pub next_cursor-some :
      (xs : List A) (n : ℕ) (y : A)
      → ltb n (length (take (suc n) xs)) ≡ true
      → last_of (take n xs) ≡ some y
      → (paginate fields (take (suc n) xs) n).next_cursor ≡ some (fields y)
  unfolding paginate
  next_cursor-some xs n y more its = rw (more, take-take n xs) (rw its refl)

pub All-refl : {A B : Type 0} (f : A → B) (xs : List A) → All (λ x. f x ≡ f x) xs
All-refl f [] = tt
All-refl f (x ∷ xs) = (refl, All-refl f xs)

module _ {A : Type 0} (column cursor : A → CursorFields) where
  pub paginate-after :
      (xs : List A) (n : ℕ) (c : CursorFields)
      → IsNewestFirst column xs
      → All (λ x. cursor x ≡ column x) xs
      → (paginate cursor (take (suc n) xs) n).next_cursor ≡ some c
      → (paginate cursor (take (suc n) xs) n).items ++ filterb (is_after column c) xs ≡ xs
  unfolding paginate
  paginate-after xs n c d exact h = elim (Bool-cases (ltb n (length (take (suc n) xs)))) [
    | inr last_page ↦ absurd (ground (arith, h, last_page))
    | inl more ↦ elim (Option-cases (last_of (take n xs))) [
      | inl empty ↦ cc (next_cursor-none cursor xs n empty)
      | inr (y, its) ↦
          let same : c ≡ cursor y = cc (next_cursor-some cursor xs n y more its) in
          let whole : c ≡ column y =
            same ∙ last_of-All (λ x. cursor x ≡ column x) n xs y its exact in
          rw (items-more cursor xs n more, whole) (after-last column n xs y d its)
    ]
  ]
