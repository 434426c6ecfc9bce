-- ===== src/Common/Pagination/Walk.antt =====
-- A client that follows the cursors of apps/api/src/common/pagination.util.ts from page to page.
use fulfill_os.Prelude.{
  ℕ, zero, suc, ◌≤◌, ◌≡◌, refl, sym, ap, ◌∙◌, Bool, true, false, Option, none, some, List, [], ◌∷◌,
  ◌++◌, map, arith, ltb, length, length-append, take, filterb, All, Bool-cases, inl, inr,
}
use fulfill_os.Common.Pagination.{
  CursorFields, CursorPage, QueryCursor, absent, decoded, Read, found, refused, last_of, paginate,
}
use fulfill_os.Common.Pagination.Pages.{
  is_after, IsNewestFirst, paginate-after, All-refl, last_of-All, next_cursor-some, items-more,
  take-take,
}
use fulfill_os.Common.Pagination.Sorting.{keyset_before_trans, All-filterb, filterb-IsNewestFirst}

abbrev pub prepend : {B : Type 0} → List B → Option (List B) → Option (List B)
prepend xs none = none
prepend xs (some ys) = some (xs ++ ys)

-- The items of the pages from a cursor on, where one of the first `fuel` pages is the last one.
abbrev pub walk :
    {B : Type 0} → (QueryCursor → Read (CursorPage B)) → ℕ → QueryCursor → Option (List B)
walk ask zero cursor = none
walk ask (suc fuel) cursor = elim (ask cursor) [
  | refused _ ↦ none
  | found page ↦ elim page.next_cursor [
    | none ↦ some page.items
    | some c ↦ prepend page.items (walk ask fuel (decoded c))
  ]
]

pub take-All : {A : Type 0} (P : A → Type 0) (n : ℕ) (xs : List A) → All P xs → All P (take n xs)
take-All P zero xs a = tt
take-All P (suc n) [] a = tt
take-All P (suc n) (x ∷ xs) a = (a.0, take-All P n xs a.1)

length-map : {A B : Type 0} (f : A → B) (xs : List A) → length (map f xs) ≡ length xs
length-map f [] = refl
length-map f (x ∷ xs) = omega (arith, length-map f xs)

take-map : {A B : Type 0} (f : A → B) (n : ℕ) (xs : List A) → take n (map f xs) ≡ map f (take n xs)
take-map f zero xs = refl
take-map f (suc n) [] = refl
take-map f (suc n) (x ∷ xs) = ap (λ t. f x ∷ t) (take-map f n xs)

map-append : {A B : Type 0} (f : A → B) (xs ys : List A) → map f (xs ++ ys) ≡ map f xs ++ map f ys
map-append f [] ys = refl
map-append f (x ∷ xs) ys = ap (λ t. f x ∷ t) (map-append f xs ys)

-- A page that leaves nothing out is all the rows.
take-short :
    {A : Type 0} (n : ℕ) (xs : List A)
    → ltb n (length (take (suc n) xs)) ≡ false
    → take (suc n) xs ≡ xs
take-short n [] h = refl
take-short zero (x ∷ xs) h = cc
take-short (suc n) (x ∷ xs) h = ap (λ t. x ∷ t) (take-short n xs (ground (arith, h)))

last_of-cons : {A : Type 0} (x : A) (xs : List A) → (y : A) × (last_of (x ∷ xs) ≡ some y)
unfolding last_of
last_of-cons x [] = (x, refl)
last_of-cons x (z ∷ xs) = last_of-cons z xs

last_of-take :
    {A : Type 0} (n : ℕ) (xs : List A)
    → 1 ≤ n
    → ltb n (length (take (suc n) xs)) ≡ true
    → (y : A) × (last_of (take n xs) ≡ some y) × (1 ≤ length (take n xs))
last_of-take zero xs h k = absurd (omega (arith, h))
last_of-take (suc n) [] h k = absurd (ground (arith, k))
last_of-take (suc n) (x ∷ xs) h k =
    let (y, its) = last_of-cons x (take n xs) in (y, its, omega arith)

filterb_self : {A : Type 0} (f : A → Bool) (xs : List A) → All (λ x. f x ≡ true) (filterb f xs)
filterb_self f [] = tt
filterb_self f (x ∷ xs) = elim (Bool-cases (f x)) [
  | inl kept ↦ rw kept (kept, filterb_self f xs)
  | inr left ↦ rw left (filterb_self f xs)
]

filterb-filterb_weaker :
    {A : Type 0} (f g : A → Bool) (xs : List A)
    → ((x : A) → g x ≡ true → f x ≡ true)
    → filterb g xs ≡ filterb g (filterb f xs)
filterb-filterb_weaker f g [] weaker = refl
filterb-filterb_weaker f g (x ∷ xs) weaker =
    ground (arith, weaker x, filterb-filterb_weaker f g xs weaker)

module _ {B : Type 0} (ask : QueryCursor → Read (CursorPage B)) (fuel : ℕ) (q : QueryCursor)
    (here : CursorPage B) (its : ask q ≡ found here) where
  walk-last : here.next_cursor ≡ none → walk ask (suc fuel) q ≡ some here.items
  walk-last last_page = rw (its, walk) (rw last_page refl)

  walk-more :
      (c : CursorFields)
      → here.next_cursor ≡ some c
      → walk ask (suc fuel) q ≡ prepend here.items (walk ask fuel (decoded c))
  walk-more c more = rw (its, walk) (rw more refl)

module _ {A B : Type 0} (fields : A → CursorFields) (summary : A → B)
    (cursor : B → CursorFields) where
  -- The page of the rows `xs`.
  abbrev pub page : ℕ → List A → CursorPage B
  page n xs = paginate cursor (map summary (take (suc n) xs)) n

  abbrev pub Exact : A → Type 0
  Exact x = cursor (summary x) ≡ fields x

  last_of-map :
      (xs : List A) (y : A) → last_of xs ≡ some y → last_of (map summary xs) ≡ some (summary y)
  unfolding last_of
  last_of-map [] y h = cc
  last_of-map (x ∷ []) y h = ground (arith, h)
  last_of-map (x ∷ z ∷ xs) y h = last_of-map (z ∷ xs) y h

  page-last :
      (n : ℕ) (xs : List A)
      → ltb n (length (take (suc n) xs)) ≡ false
      → ((page n xs).items ≡ map summary xs) × ((page n xs).next_cursor ≡ none)
  unfolding paginate
  page-last n xs h =
      rw (length-map summary (take (suc n) xs), h) (ap (map summary) (take-short n xs h), refl)

  page-more :
      (n : ℕ) (xs : List A) (y : A)
      → All Exact xs
      → ltb n (length (take (suc n) xs)) ≡ true
      → last_of (take n xs) ≡ some y
      → ((page n xs).items ≡ map summary (take n xs)) × ((page n xs).next_cursor ≡ some (fields y))
  unfolding paginate
  page-more n xs y exact h its =
      let pages : take n (map summary (take (suc n) xs)) ≡ map summary (take n xs) =
        take-map summary n (take (suc n) xs) ∙ ap (map summary) (take-take n xs) in
      rw (length-map summary (take (suc n) xs), h)
        (
          pages,
          rw (pages, last_of-map (take n xs) y its)
              (ap (λ c. some c) (last_of-All Exact n xs y its exact)),
        )

  module _ (ask : QueryCursor → Read (CursorPage B)) (n : ℕ) (all : List A)
      (asked : (c : CursorFields)
        → ask (decoded c) ≡ found (page n (filterb (is_after fields c) all))) where
    -- The rows `xs` are the ones that a cursor among them leaves.
    abbrev IsTail : List A → Type 0
    IsTail xs =
        (y : A) (m : ℕ)
        → last_of (take m xs) ≡ some y
        → filterb (is_after fields (fields y)) all ≡ filterb (is_after fields (fields y)) xs

    filterb-IsTail : (x : A) → IsTail (filterb (is_after fields (fields x)) all)
    filterb-IsTail x y m its =
        let after : is_after fields (fields x) y ≡ true =
          last_of-All (λ z. is_after fields (fields x) z ≡ true) m
            (filterb (is_after fields (fields x)) all) y its
            (filterb_self (is_after fields (fields x)) all) in
        filterb-filterb_weaker (is_after fields (fields x)) (is_after fields (fields y)) all
          (λ z. keyset_before_trans (fields x) (fields y) (fields z) after)

    walk-from :
        (fuel : ℕ) (q : QueryCursor) (xs : List A)
        → 1 ≤ n
        → length xs ≤ fuel
        → IsNewestFirst fields xs
        → All Exact xs
        → IsTail xs
        → ask q ≡ found (page n xs)
        → walk ask (suc fuel) q ≡ some (map summary xs)
    walk-from zero q [] some_rows enough sorted exact tail_ its =
        let (items, next) = page-last n [] (ground arith) in
        walk-last ask zero q (page n []) its next ∙ ap (λ ts. some ts) items
    walk-from zero q (x ∷ xs) some_rows enough sorted exact tail_ its =
        absurd (omega (arith, enough))
    walk-from (suc fuel) q xs some_rows enough sorted exact tail_ its =
        elim (Bool-cases (ltb n (length (take (suc n) xs)))) [
          | inr last_page ↦
              let (items, next) = page-last n xs last_page in
              walk-last ask (suc fuel) q (page n xs) its next ∙ ap (λ ts. some ts) items
          | inl more ↦
              let (y, last, nonempty) = last_of-take n xs some_rows more in
              let (items, next) = page-more n xs y exact more last in
              let split : take n xs ++ filterb (is_after fields (fields y)) xs ≡ xs =
                rw (← items-more fields xs n more) (
                  paginate-after fields fields xs n (fields y) sorted (All-refl fields xs)
                    (next_cursor-some fields xs n y more last)) in
              let rest = filterb (is_after fields (fields y)) all in
              let same : rest ≡ filterb (is_after fields (fields y)) xs = tail_ y n last in
              let shorter : length rest ≤ fuel = rw same (
                omega (
                  arith,
                  enough,
                  nonempty,
                  ap length split,
                  length-append (take n xs) (filterb (is_after fields (fields y)) xs),
                )) in
              let again =
                walk-from fuel (decoded (fields y)) rest some_rows shorter
                  (rw same (filterb-IsNewestFirst fields (is_after fields (fields y)) xs sorted))
                  (rw same (All-filterb Exact (is_after fields (fields y)) xs exact))
                  (filterb-IsTail y) (asked (fields y)) in
              walk-more ask (suc fuel) q (page n xs) its (fields y) next
              ∙ rw (items, again, same)
                  (ap (λ ts. some ts)
                    (sym (map-append summary (take n xs) (filterb (is_after fields (fields y)) xs))
                      ∙ ap (map summary) split))
        ]

    -- What a client does that starts with no cursor.
    pub walk_complete :
        1 ≤ n
        → IsNewestFirst fields all
        → All Exact all
        → ask absent ≡ found (page n all)
        → walk ask (suc (length all)) absent ≡ some (map summary all)
    walk_complete some_rows sorted exact its =
        walk-from (length all) absent all some_rows (omega arith) sorted exact (λ y m h. refl) its
