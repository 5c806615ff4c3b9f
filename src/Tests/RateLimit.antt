-- ===== src/Tests/RateLimit.antt =====
-- Calls answered by the limiter of backend/internal/httpapi/ratelimit.go.
use Prim.Native.Nat.{min}
use mathlib.Core.Bool.{true≢false}
use netra.Prelude.{
  ◌≢◌, sym, ◌∙◌, eq_iff, ◌-◌, ◌≡◌, refl, String, none, some, List, [], ◌∷◌, pos, ◌==ₛ◌,
  if◌then◌else◌, arith,
}
use netra.RateLimit.Limiter.{RateLimit, Limiter}
use netra.RateLimit.Window.{Call, calls, grants, grants-in_window}
use netra.RateLimit.Pruning.{Step, call, housekeeping}

abbrev three_a_minute : RateLimit
three_a_minute = record { requests = pos 3; window = 60 }

-- One call of "a" is counted, in a window that ends at 60.
abbrev counting : Limiter
counting = record {
  buckets = λ k. if k ==ₛ "a" then some (record { count = 1; reset_at = 60 }) else none;
  limit = three_a_minute;
}

abbrev trace : List Call
trace = ("a", 10) ∷ ("b", 200) ∷ ("a", 20) ∷ ("a", 60) ∷ []

not_a : (b : String) → b ≡ "b" → b ≢ "a"
not_a b h e = true≢false (sym ((eq_iff "b" "a").1 (sym h ∙ e)))

grants-in_window_example : grants "a" counting trace ≡ min (calls "a" trace) (3 - 1)
grants-in_window_example =
    grants-in_window "a" counting (record { count = 1; reset_at = 60 }) 3 trace refl refl
      (
        (λ e. omega arith),
        ((λ e. absurd (not_a "b" refl e)), ((λ e. omega arith), ((λ e. omega arith), tt))),
      )

abbrev fresh : Limiter
fresh = record { buckets = λ k. none; limit = three_a_minute }

abbrev steps : List Step
steps = call "a" 10 ∷ housekeeping 61 ∷ call "a" 70 ∷ []
