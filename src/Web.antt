-- ===== src/Web.antt =====
-- apps/web/lib/api.ts: the headers and the errors of the web client's requests.
pub mod Csrf
use fulfill_os.Prelude.{
  ℕ, zero, suc, Bool, true, false, not, Option, none, some, List, [], ◌∷◌, ◌++◌, ◌==◌, ◌&&◌, ◌||◌,
  leb, ltb, if◌then◌else◌,
}
use fulfill_os.Common.CanonicalJson.{units}

-- The `method` of a request, after `toUpperCase`.
pub data Verb : Type 0 where
  get head options post put patch delete : Verb

-- A readable cookie of the browser: its name, and its value after `decodeURIComponent`.
pub record BrowserCookie : Type 0 where
  pub name : List ℕ
  pub value : List ℕ

abbrev pub csrf_cookie_name : List ℕ
csrf_cookie_name = units "fulfillos.csrf"

-- The name in the regular expression of `readCookie`: its dot stands for any character. That the dot
-- also matches the `=` after a shorter name is left out.
matches_name : List ℕ → List ℕ → Bool
matches_name [] [] = true
matches_name [] (_ ∷ _) = false
matches_name (_ ∷ _) [] = false
matches_name (x ∷ xs) (y ∷ ys) = (x == b'.' || x == y) && matches_name xs ys

-- The first match in `document.cookie`, which joins the cookies by `; `.
read_cookie : List ℕ → List BrowserCookie → Option (List ℕ)
unfolding matches_name
read_cookie name [] = none
read_cookie name (c ∷ cs) = if matches_name name c.name then some c.value else read_cookie name cs

unfoldable pub is_mutating : Verb → Bool
is_mutating get = false
is_mutating head = false
is_mutating options = false
is_mutating post = true
is_mutating put = true
is_mutating patch = true
is_mutating delete = true

-- An empty text is falsy.
abbrev pub truthy : Option (List ℕ) → Option (List ℕ)
truthy none = none
truthy (some []) = none
truthy (some (x ∷ xs)) = some (x ∷ xs)

pub record Headers : Type 0 where
  pub is_json : Bool
  pub csrf_token : Option (List ℕ)
  pub idempotency_key : Option (List ℕ)

-- The headers that `apiFetch` sets.
pub request_headers : Verb → Bool → Option (List ℕ) → List BrowserCookie → Headers
unfolding is_mutating read_cookie
request_headers method has_body idempotency_key cookies = record {
  is_json = has_body;
  csrf_token = if is_mutating method then truthy (read_cookie csrf_cookie_name cookies) else none;
  idempotency_key = truthy idempotency_key;
}

-- The `message` of a body: a text, a list of texts, or neither.
pub data BodyMessage : Type 0 where
  no_message : BodyMessage
  one_message : List ℕ → BodyMessage
  messages : List (List ℕ) → BodyMessage

-- How `fetch` ends.
pub data Fetched {ℓ} (B : Type ℓ) : Type ℓ where
  aborted unreachable : Fetched B
  responded : ℕ → Option B → Fetched B

pub record ApiError : Type 0 where
  pub status : ℕ
  pub message : List ℕ

pub data Settled {ℓ} (B : Type ℓ) : Type ℓ where
  resolved : Option B → Settled B
  failed : ApiError → Settled B
  cancelled : Settled B

-- `xs.join(', ')`
join_messages : List (List ℕ) → List ℕ
join_messages [] = []
join_messages (x ∷ []) = x
join_messages (x ∷ y ∷ ys) = x ++ units ", " ++ join_messages (y ∷ ys)

-- `response.ok`
abbrev pub is_ok : ℕ → Bool
is_ok status = leb 200 status && ltb status 300

module _ {B : Type 0} (message_of : B → BodyMessage) (print_status : ℕ → List ℕ) where
  abbrev status_message : ℕ → List ℕ
  status_message status = units "Request failed (" ++ print_status status ++ units ")."

  abbrev or_status : ℕ → List ℕ → List ℕ
  or_status status [] = status_message status
  or_status status (x ∷ xs) = x ∷ xs

  -- An empty text, or an empty list joined, falls through to the next alternative.
  error_message : ℕ → Option B → List ℕ
  unfolding join_messages
  error_message status none = status_message status
  error_message status (some body) = elim (message_of body) [
    | no_message ↦ status_message status
    | one_message text ↦ or_status status text
    | messages texts ↦ or_status status (join_messages texts)
  ]

  -- `apiFetch`, after its `fetch`.
  unfoldable pub settle : Fetched B → Settled B
  unfolding error_message
  settle aborted = cancelled
  settle unreachable = failed (record {
    status = 0;
    message = units "Could not reach the server. Check your connection and try again.";
  })
  settle (responded status body) =
      if not (is_ok status)
      then failed (record { status = status; message = error_message status body })
      else resolved body

unfoldable pub is_session_expired : {B : Type 0} → Settled B → Bool
is_session_expired (resolved _) = false
is_session_expired (failed e) = e.status == 401
is_session_expired cancelled = false
