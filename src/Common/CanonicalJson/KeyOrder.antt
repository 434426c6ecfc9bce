-- ===== src/Common/CanonicalJson/KeyOrder.antt =====
-- apps/api/src/common/canonical-json.util.ts: the order of an object's keys does not count.
use fulfill_os.Prelude.{ℕ, ◌≡◌, ◌≢◌, refl, ap, ◌∙◌, true, false, List, [], ◌∷◌, ◌++◌, arith}
use fulfill_os.Platform.{Platform}
use fulfill_os.Common.CanonicalJson.{
  Json, array, object, Items, nil, cons, Fields, end, field, leb_units, Entry, insert_entry,
  sort_entries, join, written_of, stable_stringify, stringify_items, entries, canonical_fingerprint,
}

leb_units_total : (xs ys : List ℕ) → leb_units xs ys ≡ false → leb_units ys xs ≡ true
unfolding leb_units
leb_units_total [] ys h = cc
leb_units_total (x ∷ xs) [] h = refl
leb_units_total (x ∷ xs) (y ∷ ys) h = ground (arith, h, leb_units_total xs ys)

leb_units_antisym : (xs ys : List ℕ) → leb_units xs ys ≡ true → leb_units ys xs ≡ true → xs ≡ ys
unfolding leb_units
leb_units_antisym [] [] h k = refl
leb_units_antisym [] (y ∷ ys) h k = cc
leb_units_antisym (x ∷ xs) [] h k = cc
leb_units_antisym (x ∷ xs) (y ∷ ys) h k = ground (arith, h, k, leb_units_antisym xs ys)

leb_units_trans :
    (xs ys zs : List ℕ) → leb_units xs ys ≡ true → leb_units ys zs ≡ true → leb_units xs zs ≡ true
unfolding leb_units
leb_units_trans [] ys zs h k = refl
leb_units_trans (x ∷ xs) [] zs h k = cc
leb_units_trans (x ∷ xs) (y ∷ ys) [] h k = cc
leb_units_trans (x ∷ xs) (y ∷ ys) (z ∷ zs) h k = ground (arith, h, k, leb_units_trans xs ys zs)

-- Two entries of different keys go in in either order.
insert_entry_comm :
    (a b : Entry) (xs : List Entry)
    → a.key ≢ b.key
    → insert_entry a (insert_entry b xs) ≡ insert_entry b (insert_entry a xs)
unfolding insert_entry
insert_entry_comm a b [] other =
    ground (arith, other, leb_units_antisym a.key b.key, leb_units_total a.key b.key)
insert_entry_comm a b (x ∷ xs) other = ground (
  arith,
  insert_entry_comm a b xs other,
  leb_units_antisym a.key b.key,
  leb_units_total a.key b.key,
  leb_units_trans a.key b.key x.key,
  leb_units_trans b.key a.key x.key,
  other,
)

-- The same value, with the fields of its objects, at any depth, in any order. Fields of one key, which
-- no JavaScript object has, keep their order.
mutual
  pub data SameJson : Json → Json → Type 0 where
    same : {v : Json} → SameJson v v
    same_array : {xs ys : Items} → SameItems xs ys → SameJson (array xs) (array ys)
    same_object : {fs gs : Fields} → SameFields fs gs → SameJson (object fs) (object gs)

  pub data SameItems : Items → Items → Type 0 where
    no_items : SameItems nil nil
    one_more :
        {v w : Json} {xs ys : Items}
        → SameJson v w
        → SameItems xs ys
        → SameItems (cons v xs) (cons w ys)

  pub data SameFields : Fields → Fields → Type 0 where
    no_more_fields : SameFields end end
    one_field :
        {k : List ℕ} {v w : Json} {fs gs : Fields}
        → SameJson v w
        → SameFields fs gs
        → SameFields (field k v fs) (field k w gs)
    swapped :
        {k l : List ℕ} {v w : Json} {fs : Fields}
        → k ≢ l
        → SameFields (field k v (field l w fs)) (field l w (field k v fs))
    in_turn : {fs gs hs : Fields} → SameFields fs gs → SameFields gs hs → SameFields fs hs

abbrev with_text : List ℕ → List ℕ → Entry
with_text k t = record { key = k; written = t }

mutual
  unfolding stable_stringify sort_entries

  stable_stringify-same :
      (p : Platform) (v w : Json) → SameJson v w → stable_stringify p v ≡ stable_stringify p w
  stable_stringify-same p v w same = refl
  stable_stringify-same p _ _ (same_array {xs} {ys} h) =
      ap (λ ts. b'[' ∷ (join ts ++ b']' ∷ [])) (stringify_items-same p xs ys h)
  stable_stringify-same p _ _ (same_object {fs} {gs} h) =
      ap (λ es. b'{' ∷ (join (written_of es) ++ b'}' ∷ [])) (sort_entries-same p fs gs h)

  stringify_items-same :
      (p : Platform) (xs ys : Items) → SameItems xs ys → stringify_items p xs ≡ stringify_items p ys
  stringify_items-same p _ _ no_items = refl
  stringify_items-same p _ _ (one_more {v} {w} {xs} {ys} h hs) =
      rw (stable_stringify-same p v w h, stringify_items-same p xs ys hs) refl

  sort_entries-same :
      (p : Platform) (fs gs : Fields)
      → SameFields fs gs
      → sort_entries (entries p fs) ≡ sort_entries (entries p gs)
  sort_entries-same p _ _ no_more_fields = refl
  sort_entries-same p _ _ (one_field {k} {v} {w} {fs} {gs} h hs) =
      rw (stable_stringify-same p v w h, sort_entries-same p fs gs hs) refl
  sort_entries-same p _ _ (swapped {k} {l} {v} {w} {fs} other) =
      insert_entry_comm (with_text k (p.quote k ++ b':' ∷ stable_stringify p v))
        (with_text l (p.quote l ++ b':' ∷ stable_stringify p w)) (sort_entries (entries p fs)) other
  sort_entries-same p _ _ (in_turn {fs} {gs} {hs} h k) =
      sort_entries-same p fs gs h ∙ sort_entries-same p gs hs k

-- Two request bodies that differ only in the order of the keys of their objects, at any depth, have the
-- same fingerprint.
pub canonical_fingerprint-SameJson :
    (p : Platform) (v w : Json)
    → SameJson v w
    → canonical_fingerprint p v ≡ canonical_fingerprint p w
unfolding canonical_fingerprint
canonical_fingerprint-SameJson p v w h = ap p.sha256 (stable_stringify-same p v w h)
