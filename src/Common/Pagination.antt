-- ===== src/Common/Pagination.antt =====
-- apps/api/src/common/pagination.util.ts. A limit is a number that the query's validation let
-- through, so a natural; a cursor is the pair that its text encodes.
pub mod Pages
pub mod Sorting
pub mod Walk
use fulfill_os.Prelude.{
  ℕ, zero, suc, Bool, Option, none, some, List, [], ◌∷◌, ◌&&◌, ◌||◌, ◌==◌, ltb, if◌then◌else◌,
  length, take,
}

abbrev pub default_limit : ℕ
default_limit = 20

abbrev pub max_limit : ℕ
max_limit = 100

unfoldable pub normalize_limit : Option ℕ → ℕ
normalize_limit none = default_limit
normalize_limit (some limit) =
    if ltb limit 1 then default_limit else if ltb max_limit limit then max_limit else limit

pub record CursorFields : Type 0 where
  pub created_at : ℕ
  pub id : ℕ

pub record CursorPage {ℓ} (A : Type ℓ) : Type ℓ where
  pub items : List A
  pub next_cursor : Option CursorFields

-- `decoded` is what `decodeCursor` makes of the cursor's text.
pub data QueryCursor : Type 0 where
  absent undecodable : QueryCursor
  decoded : CursorFields → QueryCursor

pub record PageQuery : Type 0 where
  pub limit : Option ℕ
  pub cursor : QueryCursor

-- What the read side refuses with.
pub data ReadError : Type 0 where
  invalid_cursor order_not_found product_missing : ReadError

pub data Read {ℓ} (A : Type ℓ) : Type ℓ where
  found : A → Read A
  refused : ReadError → Read A

-- Strictly after the cursor, in the order of both keys descending.
abbrev pub keyset_before : CursorFields → ℕ → ℕ → Bool
keyset_before c created_at id =
    ltb created_at c.created_at || created_at == c.created_at && ltb id c.id

-- `ORDER BY created_at DESC, id DESC`
unfoldable pub insert_newest {ℓ} : {A : Type ℓ} → (A → CursorFields) → A → List A → List A
insert_newest fields a [] = a ∷ []
insert_newest fields a (x ∷ xs) =
    if keyset_before (fields x) (fields a).created_at (fields a).id
    then x ∷ insert_newest fields a xs
    else a ∷ x ∷ xs

unfoldable pub sort_newest {ℓ} : {A : Type ℓ} → (A → CursorFields) → List A → List A
unfolding insert_newest
sort_newest fields [] = []
sort_newest fields (x ∷ xs) = insert_newest fields x (sort_newest fields xs)

unfoldable pub last_of {ℓ} : {A : Type ℓ} → List A → Option A
last_of [] = none
last_of (x ∷ []) = some x
last_of (x ∷ y ∷ ys) = last_of (y ∷ ys)

unfoldable pub paginate {ℓ} : {A : Type ℓ} → (A → CursorFields) → List A → ℕ → CursorPage A
unfolding last_of
paginate fields rows limit =
    let has_more = ltb limit (length rows) in
    let items = if has_more then take limit rows else rows in
    record {
      items = items;
      next_cursor =
          if has_more
          then elim (last_of items) [ none ↦ none | some x ↦ some (fields x) ]
          else none;
    }
