-- ===== src/Common/CanonicalJson.antt =====
-- apps/api/src/common/canonical-json.util.ts: a JSON text with sorted keys, and its hash.
pub mod KeyOrder
use Prim.Native.Char.{code}
use fulfill_os.Prelude.{String, ℕ, Bool, true, false, List, [], ◌∷◌, ◌++◌, ltb, ◌==◌, if◌then◌else◌}
use fulfill_os.Prelude.Int.{ℤ}
use fulfill_os.Platform.{Platform}

-- A parsed request body. A key or a text is its list of code units.
mutual
  pub data Json : Type 0 where
    null : Json
    boolean : Bool → Json
    number : ℤ → Json
    text : List ℕ → Json
    array : Items → Json
    object : Fields → Json

  pub data Items : Type 0 where
    nil : Items
    cons : Json → Items → Items

  pub data Fields : Type 0 where
    end : Fields
    field : List ℕ → Json → Fields → Fields

-- The code units of a text in ASCII.
abbrev pub units : String → List ℕ
units String.[] = []
units (String.◌∷◌ c s) = code c ∷ units s

-- The order of `Array.prototype.sort` on strings: by code units.
pub leb_units : List ℕ → List ℕ → Bool
leb_units [] ys = true
leb_units (x ∷ xs) [] = false
leb_units (x ∷ xs) (y ∷ ys) =
    let rest = leb_units xs ys in if ltb x y then true else if x == y then rest else false

-- An entry is a key and its text.
pub record Entry : Type 0 where
  pub key : List ℕ
  pub written : List ℕ

pub insert_entry : Entry → List Entry → List Entry
unfolding leb_units
insert_entry e [] = e ∷ []
insert_entry e (x ∷ xs) = if leb_units e.key x.key then e ∷ x ∷ xs else x ∷ insert_entry e xs

pub sort_entries : List Entry → List Entry
unfolding insert_entry
sort_entries [] = []
sort_entries (e ∷ es) = insert_entry e (sort_entries es)

-- `xs.join(',')`
pub join : List (List ℕ) → List ℕ
join [] = []
join (x ∷ []) = x
join (x ∷ y ∷ ys) = x ++ b',' ∷ join (y ∷ ys)

pub written_of : List Entry → List (List ℕ)
written_of [] = []
written_of (e ∷ es) = e.written ∷ written_of es

abbrev pub json_boolean : Bool → List ℕ
json_boolean true = b't' ∷ b'r' ∷ b'u' ∷ b'e' ∷ []
json_boolean false = b'f' ∷ b'a' ∷ b'l' ∷ b's' ∷ b'e' ∷ []

unfoldable mutual
  unfolding sort_entries join written_of

  pub stable_stringify : Platform → Json → List ℕ
  stable_stringify p null = b'n' ∷ b'u' ∷ b'l' ∷ b'l' ∷ []
  stable_stringify p (boolean b) = json_boolean b
  stable_stringify p (number n) = p.print_number n
  stable_stringify p (text t) = p.quote t
  stable_stringify p (array xs) = b'[' ∷ (join (stringify_items p xs) ++ b']' ∷ [])
  stable_stringify p (object fs) =
      b'{' ∷ (join (written_of (sort_entries (entries p fs))) ++ b'}' ∷ [])

  pub stringify_items : Platform → Items → List (List ℕ)
  stringify_items p nil = []
  stringify_items p (cons x xs) = stable_stringify p x ∷ stringify_items p xs

  -- `${JSON.stringify(key)}:${stableStringify(value[key])}` for each key.
  pub entries : Platform → Fields → List Entry
  entries p end = []
  entries p (field k v fs) =
      record { key = k; written = p.quote k ++ b':' ∷ stable_stringify p v } ∷ entries p fs

pub canonical_fingerprint : Platform → Json → ℕ
canonical_fingerprint p payload = p.sha256 (stable_stringify p payload)
