-- ===== src/RateLimit.antt =====
-- apps/api/src/auth/guards/rate-limit.guard.ts: a fixed window over Redis.
pub mod Window
use fulfill_os.Prelude.{
  ℕ, ◌≡◌, ◌≢◌, suc, Bool, Option, none, some, String, ltb, ◌==◌, if◌then◌else◌,
}
use fulfill_os.Access.{Decision, allowed, refused}

-- `@RateLimit(…)`
pub record RateLimitOptions : Type 0 where
  pub limit : ℕ
  pub window_seconds : ℕ

-- The key `ratelimit:${method}:${path}:${client}`.
pub record RateKey : Type 0 where
  pub method : String
  pub path : String
  pub client : String

-- The two commands of Redis that the guard sends, over the server's state. `INCR` answers with the
-- count after it.
pub record Redis : Type 1 where
  pub State : Type 0
  pub incr : RateKey → State → ℕ × State
  pub expire : RateKey → ℕ → State → State

abbrev client_of : Option String → String
client_of none = "unknown"
client_of (some ip) = ip

-- What the guard reads of a request.
pub record RatedRequest : Type 0 where
  pub method : String
  pub path : String
  pub ip : Option String

abbrev pub rate_key : RatedRequest → RateKey
rate_key r = record { method = r.method; path = r.path; client = client_of r.ip }

pub rate_limit_guard :
    (redis : Redis)
    → Option RateLimitOptions
    → RatedRequest
    → redis.State
    → Decision (Unit {0}) × redis.State
rate_limit_guard redis none request state = (allowed tt, state)
rate_limit_guard redis (some options) request state =
    let (count, counted) = redis.incr (rate_key request) state in
    let after =
      if count == 1
      then redis.expire (rate_key request) options.window_seconds counted
      else counted in
    (if ltb options.limit count then refused 429 else allowed tt, after)
