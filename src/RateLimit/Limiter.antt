-- ===== src/RateLimit/Limiter.antt =====
-- backend/internal/httpapi/ratelimit.go: the fixed-window limiter and its middleware. The mutex
-- makes each operation one step; the map of buckets is a function of the key.
use Prim.Native.String.{◌++◌ as ◌++ₛ◌}
use netra.Prelude.{
  ℕ, ◌+◌, String, Bool, Option, none, some, ltb, ◌==ₛ◌, ℤ, pos, sub_ℕ, quot, ◌+ℤ◌, leb_ℤ,
  if◌then◌else◌,
}
use netra.Risk.Model.{Time}

pub record RateLimit : Type 0 where
  pub requests : ℤ
  -- nanoseconds
  pub window : ℕ

pub record Bucket : Type 0 where
  pub count : ℕ
  pub reset_at : Time

pub record Limiter : Type 0 where
  pub buckets : String → Option Bucket
  pub limit : RateLimit

unfoldable pub new_limiter : RateLimit → Limiter
new_limiter limit = record { buckets = λ key. none; limit = limit }

-- now.After(t)
abbrev pub after : Time → Time → Bool
after now t = ltb t now

-- The bucket that a call counts in: the stored one, unless there is none or its window is over.
unfoldable pub current : Limiter → Option Bucket → Time → Bucket
current l none now = record { count = 0; reset_at = now + l.limit.window }
current l (some entry) now =
    if after now entry.reset_at
    then record { count = 0; reset_at = now + l.limit.window }
    else entry

abbrev pub store : Limiter → String → Bucket → Limiter
store l key entry = record l { buckets = λ k. if k ==ₛ key then some entry else l.buckets k }

-- `allow`: the limiter afterwards, whether the caller may proceed, and when the window resets.
unfoldable pub allow : Limiter → String → Time → Limiter × Bool × Time
unfolding current
allow l key now =
    let entry = current l (l.buckets key) now in
    let counted = record entry { count = entry.count + 1 } in
    (store l key counted, leb_ℤ (pos counted.count) l.limit.requests, counted.reset_at)

unfoldable pub keep_live : Time → Option Bucket → Option Bucket
keep_live now none = none
keep_live now (some entry) = if after now entry.reset_at then none else some entry

unfoldable pub prune : Limiter → Time → Limiter
unfolding keep_live
prune l now = record l { buckets = λ key. keep_live now (l.buckets key) }

-- `ByDevice`, from the device header and the client's address.
abbrev pub by_device : String → String → String
by_device uid ip = if uid ==ₛ "" then "ip:" ++ₛ ip else "device:" ++ₛ uid

-- What the middleware answers: the handler runs, or 429 with the seconds to wait.
pub data Answer : Type 0 where
  served : Answer
  too_many_requests : ℤ → Answer

-- The request's step of `RateLimited`; `later` is the second reading of the clock.
unfoldable pub handle : Limiter → String → Time → Time → Limiter × Answer
handle l key now later =
    let (l', allowed, reset_at) = allow l key now in
    (
      l',
      if allowed
          then served
          else too_many_requests (quot (sub_ℕ reset_at later) 1000000000 +ℤ pos 1),
    )
