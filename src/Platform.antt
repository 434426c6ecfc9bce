-- ===== src/Platform.antt =====
-- What the services use of code outside this repository and of their configuration, and what one
-- request is given.
use fulfill_os.Prelude.{ℕ, List, String}
use fulfill_os.Prelude.Int.{ℤ}

pub record Platform : Type 0 where
  -- `SESSION_COOKIE_NAME` of the configuration.
  pub session_cookie_name : List ℕ
  -- PostgreSQL's reading of a uuid parameter, as the number of the text that it prints for it.
  pub parse_uuid : ℕ → ℕ
  -- The driver's reading of a timestamptz as a JavaScript Date, in microseconds.
  pub to_date : ℕ → ℕ
  -- The UTF-16 code units of a text that the model numbers.
  pub text_units : ℕ → List ℕ
  -- PostgreSQL's `lower(btrim(…))`, and JavaScript's `toLowerCase().trim()`.
  pub lower_btrim : String → String
  pub lower_trim : String → String
  -- `JSON.stringify` of a string and of a number.
  pub quote : List ℕ → List ℕ
  pub print_number : ℤ → List ℕ
  -- `createHash('sha256').update(…).digest('hex')`, numbered.
  pub sha256 : List ℕ → ℕ

-- `new Date()` and the database's `now()`, and the uuids that `gen_random_uuid()` gives to the
-- request's new rows.
pub record Env : Type 0 where
  pub now : ℕ
  pub new_id : ℕ
  pub new_inventory_id : ℕ
