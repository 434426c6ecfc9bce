-- ===== src/Idempotency/Header.antt =====
-- apps/api/src/idempotency/idempotency-key.decorator.ts. A header's value is its code units.
use fulfill_os.Prelude.{ℕ, Option, none, some, List, [], ◌∷◌, length, ltb, if◌then◌else◌}
use fulfill_os.Access.{Decision, allowed, refused, is_empty}

pub data HeaderValue : Type 0 where
  no_header : HeaderValue
  one_value : List ℕ → HeaderValue
  several_values : List (List ℕ) → HeaderValue

abbrev max_length : ℕ
max_length = 200

abbrev first_value : List (List ℕ) → Option (List ℕ)
first_value [] = none
first_value (v ∷ vs) = some v

abbrev value_of : HeaderValue → Option (List ℕ)
value_of no_header = none
value_of (one_value v) = some v
value_of (several_values vs) = first_value vs

-- `trim` is JavaScript's. A refusal is the BadRequestException.
unfoldable pub idempotency_key : (List ℕ → List ℕ) → HeaderValue → Decision (List ℕ)
idempotency_key trim header = elim (value_of header) [
  | none ↦ refused 400
  | some value ↦
      if is_empty (trim value)
      then refused 400
      else if ltb max_length (length value)
      then refused 400
      else allowed value
]
