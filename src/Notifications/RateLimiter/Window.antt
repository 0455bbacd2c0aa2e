-- ===== src/Notifications/RateLimiter/Window.antt =====
-- How many notifications the token bucket of internal/notifications/ratelimiter.go lets through.
use Prim.Native.Nat.{min}
use container_census.Base.{
  ℕ, suc, ◌+◌, ◌*◌, ◌≤◌, ◌<◌, ◌≡◌, List, [], ◌∷◌, arith, if◌then◌else◌, Every, Every-imp, length,
  ◌⊎◌,
}
use container_census.Models.{Time, hour}
use container_census.Notifications.RateLimiter.{RateLimiter, allow}

-- The bucket never holds more than its size.
abbrev pub IsBounded : {F : Type 0} → RateLimiter F → Type 0
IsBounded rl = rl.tokens ≤ rl.max_per_hour

module _ {F : Type 0} where
  -- The calls of `Allow` at the given clock readings that return true.
  pub granted : RateLimiter F → List Time → ℕ
  granted rl [] = 0
  granted rl (now ∷ times) =
      let rest = granted (allow now rl).0 times in if (allow now rl).1 then suc rest else rest

  pub allow-IsBounded :
      (rl : RateLimiter F) (now : Time) → IsBounded rl → IsBounded (allow now rl).0
  unfolding allow
  allow-IsBounded rl now h = ground arith

  allow_early :
      (rl : RateLimiter F) (now : Time)
      → now < rl.last_reset + hour
      → ((allow now rl).0.last_reset ≡ rl.last_reset)
        × (if (allow now rl).1
            then rl.tokens ≡ suc (allow now rl).0.tokens
            else (rl.tokens ≡ 0) × ((allow now rl).0.tokens ≡ 0))
  unfolding allow
  allow_early rl now h = ground arith

  granted-min_until :
      (rl : RateLimiter F) (times : List Time) (end : Time)
      → end ≤ rl.last_reset + hour
      → Every (λ t. t < end) times
      → granted rl times ≡ min rl.tokens (length times)
  unfolding granted
  granted-min_until rl [] end h e = omega arith
  granted-min_until rl (now ∷ times) end h e =
      ground (arith, allow_early rl now, granted-min_until (allow now rl).0 times end, e.1)

  -- Of the calls before the next refill as many are let through as there are tokens, or all of them if
  -- they are fewer.
  pub granted-min :
      (rl : RateLimiter F) (times : List Time)
      → Every (λ t. t < rl.last_reset + hour) times
      → granted rl times ≡ min rl.tokens (length times)
  granted-min rl times h = granted-min_until rl times (rl.last_reset + hour) (omega arith) h

  allow_refilled :
      (rl : RateLimiter F) (now start : Time)
      → start ≤ now
      → ((allow now rl).0.max_per_hour ≡ rl.max_per_hour)
        × (((allow now rl).0.last_reset ≡ rl.last_reset)
              × (if (allow now rl).1
                  then rl.tokens ≡ suc (allow now rl).0.tokens
                  else (allow now rl).0.tokens ≡ rl.tokens)
            ⊎ (start ≤ (allow now rl).0.last_reset)
              × (if (allow now rl).1
                  then rl.max_per_hour ≡ suc (allow now rl).0.tokens
                  else (allow now rl).0.tokens ≡ rl.max_per_hour))
  unfolding allow
  allow_refilled rl now start h = ground arith

  granted-le :
      (rl : RateLimiter F) (times : List Time) (start : Time)
      → Every (λ t. (start ≤ t) × (t < start + hour)) times
      → granted rl times ≤ rl.tokens + rl.max_per_hour
  unfolding granted
  granted-le rl [] start e = omega arith
  granted-le rl (now ∷ times) start e =
      let (kept, cases) = allow_refilled rl now start e.0.0 in
      ground (
        arith,
        kept,
        cases,
        granted-le (allow now rl).0 times start e.1,
        granted-min_until (allow now rl).0 times (start + hour),
        Every-imp (λ t. (start ≤ t) × (t < start + hour)) (λ t. t < start + hour) (λ t h. h.1) times
            e.1,
      )

  -- No hour sees more than twice `maxPerHour` notifications sent at once, wherever the hour begins
  -- and in whatever order the clock is read.
  pub granted-le-twice :
      (rl : RateLimiter F) (times : List Time) (start : Time)
      → IsBounded rl
      → Every (λ t. (start ≤ t) × (t < start + hour)) times
      → granted rl times ≤ 2 * rl.max_per_hour
  granted-le-twice rl times start b e = omega (arith, granted-le rl times start e)
