-- ===== src/RateLimit/Window.antt =====
-- How many requests of one client the guard of apps/api/src/auth/guards/rate-limit.guard.ts lets
-- through in a window.
use fulfill_os.Prelude.{
  ℕ, zero, suc, ◌+◌, ◌-◌, ◌≡◌, some, ltb, ◌==◌, arith, if◌then◌else◌, Bool-cases, inl, inr,
}
use fulfill_os.Access.{Decision, allowed, refused}
use fulfill_os.RateLimit.{
  RateLimitOptions, RateKey, Redis, RatedRequest, rate_key, rate_limit_guard,
}

-- What Redis documents of the two commands, while no key expires: a counter for each key that `INCR`
-- raises by one and answers with, and that `EXPIRE` leaves as it is.
pub record Counts (redis : Redis) : Type 1 where
  pub count : RateKey → redis.State → ℕ
  pub answers : (k : RateKey) (s : redis.State) → (redis.incr k s).0 ≡ suc (count k s)
  pub raises : (k : RateKey) (s : redis.State) → count k (redis.incr k s).1 ≡ suc (count k s)
  pub expires : (k : RateKey) (n : ℕ) (s : redis.State) → count k (redis.expire k n s) ≡ count k s

module _ (redis : Redis) (options : RateLimitOptions) (request : RatedRequest) where
  -- The number of the first `n` requests that are let through, one after the other, and the state that they leave.
  abbrev is_allowed : Decision (Unit {0}) → ℕ
  is_allowed (allowed _) = 1
  is_allowed (refused _) = 0

  abbrev one : redis.State → Decision (Unit {0}) × redis.State
  one = rate_limit_guard redis (some options) request

  abbrev pub let_through : ℕ → redis.State → ℕ
  let_through zero state = 0
  let_through (suc n) state =
      let rest = let_through n (one state).1 in is_allowed (one state).0 + rest

  module _ (laws : Counts redis) where
    guard-count :
        (state : redis.State)
        → laws.count (rate_key request) (one state).1 ≡ suc (laws.count (rate_key request) state)
    unfolding rate_limit_guard
    guard-count state = elim (Bool-cases ((redis.incr (rate_key request) state).0 == 1)) [
      | inl first ↦ rw first (
          rw
            (laws.expires (rate_key request) options.window_seconds
              (redis.incr (rate_key request) state).1)
            (laws.raises (rate_key request) state))
      | inr later ↦ rw later (laws.raises (rate_key request) state)
    ]

    guard-allowed :
        (state : redis.State)
        → is_allowed (one state).0
          ≡ (if ltb options.limit (suc (laws.count (rate_key request) state)) then 0 else 1)
    unfolding rate_limit_guard
    guard-allowed state = rw (laws.answers (rate_key request) state) (ground arith)

    -- While no key expires, of `n` requests of one client to one route the guard lets through as many
    -- as the limit leaves after those that were counted before, and all where that is no fewer.
    pub let_through_lem :
        (n : ℕ) (state : redis.State)
        → let room = options.limit - laws.count (rate_key request) state in
          let_through n state ≡ (if ltb n room then n else room)
    let_through_lem zero state = ground arith
    let_through_lem (suc n) state =
        ground (arith, let_through_lem n (one state).1, guard-count state, guard-allowed state)
