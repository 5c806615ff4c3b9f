-- ===== src/RateLimit/Pruning.antt =====
-- The housekeeping `prune` does not change what `allow` answers.
use netra.Prelude.{
  ℕ, ◌+◌, ◌≤◌, String, ◌≡◌, refl, sym, ap, ◌∙◌, Bool, true, Option, none, some, List, [], ◌∷◌, ltb,
  ◌==ₛ◌, pos, leb_ℤ, arith, Bool-cases, inl, inr, if_true, if_false, if◌then◌else◌,
}
use netra.Risk.Model.{Time}
use netra.RateLimit.Limiter.{RateLimit, Bucket, Limiter, after, current, keep_live, allow, prune}

-- A step of the limiter: a call, or the housekeeping.
pub data Step : Type 0 where
  call : String → Time → Step
  housekeeping : Time → Step

-- What a call is told: whether it may proceed, and when its window resets.
abbrev pub told : Limiter × Bool × Time → Bool × Time
told (l, allowed, reset_at) = (allowed, reset_at)

-- The answers to the calls of a sequence of steps.
unfoldable pub answers : Limiter → List Step → List (Bool × Time)
answers l [] = []
answers l (call key now ∷ steps) = told (allow l key now) ∷ answers (allow l key now).0 steps
answers l (housekeeping now ∷ steps) = answers (prune l now) steps

abbrev pub step_time : Step → Time
step_time (call key now) = now
step_time (housekeeping now) = now

-- The steps without the housekeeping.
abbrev pub only_calls : List Step → List Step
only_calls [] = []
only_calls (call key now ∷ steps) = call key now ∷ only_calls steps
only_calls (housekeeping now ∷ steps) = only_calls steps

-- The clock of the steps does not go back.
abbrev pub InOrder : Time → List Step → Type 0
InOrder t [] = Unit
InOrder t (s ∷ steps) = (t ≤ step_time s) × InOrder (step_time s) steps

current-keep_live :
    (l : Limiter) (t now : Time) (o : Option Bucket)
    → t ≤ now
    → current l (keep_live t o) now ≡ current l o now
unfolding current keep_live
current-keep_live l t now none h = refl
current-keep_live l t now (some b) h = elim (Bool-cases (after t b.reset_at)) [
  | inl e ↦
      ap (λ o. current l o now) (if_true (after t b.reset_at) none (some b) e)
      ∙ sym (if_true (after now b.reset_at) _ b (still_over b.reset_at t now e h))
  | inr e ↦ ap (λ o. current l o now) (if_false (after t b.reset_at) none (some b) e)
]
  where
    still_over : (r t now : ℕ) → ltb r t ≡ true → t ≤ now → ltb r now ≡ true
    still_over r t now e h = ground arith

current-limit :
    (l l' : Limiter) (o : Option Bucket) (t : Time)
    → l.limit ≡ l'.limit
    → current l o t ≡ current l' o t
unfolding current
current-limit l l' none t h =
    ap (λ (r : RateLimit). record { count = 0; reset_at = t + r.window }) h
current-limit l l' (some b) t h =
    ap
      (λ (r : RateLimit).
        if after t b.reset_at then record { count = 0; reset_at = t + r.window } else b)
      h

-- Two limiters that no call at or after the time tells apart.
record Same (t : Time) (l l' : Limiter) : Type 0 where
  limits : l.limit ≡ l'.limit
  slots :
      (k : String) (now : Time)
      → t ≤ now
      → current l (l.buckets k) now ≡ current l' (l'.buckets k) now

abbrev counted : RateLimit → Bucket → Bool × Time
counted limit entry = (leb_ℤ (pos (entry.count + 1)) limit.requests, entry.reset_at)

allow-Same :
    (t now : Time) (l l' : Limiter) (key : String)
    → Same t l l'
    → t ≤ now
    → told (allow l key now) ≡ told (allow l' key now)
unfolding allow
allow-Same t now l l' key s h =
    ap (λ (r : RateLimit). counted r (current l (l.buckets key) now)) s.limits
    ∙ ap (counted l'.limit) (s.slots key now h)

Same-allow :
    (t now : Time) (l l' : Limiter) (key : String)
    → Same t l l'
    → t ≤ now
    → Same now (allow l key now).0 (allow l' key now).0
unfolding allow
Same-allow t now l l' key s h =
    let entry = λ (b : Bucket). some (record b { count = b.count + 1 }) in
    record {
      limits = s.limits;
      slots = λ k later h'. elim (Bool-cases (k ==ₛ key)) [
        | inl e ↦
            ap (λ o. current (allow l key now).0 o later) (if_true (k ==ₛ key) _ (l.buckets k) e)
            ∙ ap (λ b. current (allow l key now).0 (entry b) later) (s.slots key now h)
            ∙ current-limit (allow l key now).0 (allow l' key now).0
                (entry (current l' (l'.buckets key) now)) later s.limits
            ∙ sym (
                ap (λ o. current (allow l' key now).0 o later)
                  (if_true (k ==ₛ key) _ (l'.buckets k) e))
        | inr e ↦
            ap (λ o. current (allow l key now).0 o later) (if_false (k ==ₛ key) _ (l.buckets k) e)
            ∙ current-limit (allow l key now).0 l (l.buckets k) later refl
            ∙ s.slots k later (omega arith)
            ∙ current-limit l' (allow l' key now).0 (l'.buckets k) later refl
            ∙ sym (
                ap (λ o. current (allow l' key now).0 o later)
                  (if_false (k ==ₛ key) _ (l'.buckets k) e))
      ];
    }

Same-prune : (t now : Time) (l l' : Limiter) → Same t l l' → t ≤ now → Same now (prune l now) l'
unfolding prune
Same-prune t now l l' s h = record {
  limits = s.limits;
  slots = λ k later h'.
      current-limit (prune l now) l (keep_live now (l.buckets k)) later refl
      ∙ current-keep_live l now later (l.buckets k) h'
      ∙ s.slots k later (omega arith);
}

answers-Same :
    (t : Time) (l l' : Limiter) (steps : List Step)
    → Same t l l'
    → InOrder t steps
    → answers l steps ≡ answers l' (only_calls steps)
unfolding answers
answers-Same t l l' [] s ho = refl
answers-Same t l l' (call key now ∷ steps) s (h, ho) =
    ap (λ a. a ∷ answers (allow l key now).0 steps) (allow-Same t now l l' key s h)
    ∙ ap (λ given. told (allow l' key now) ∷ given)
        (answers-Same now (allow l key now).0 (allow l' key now).0 steps
          (Same-allow t now l l' key s h) ho)
answers-Same t l l' (housekeeping now ∷ steps) s (h, ho) =
    answers-Same now (prune l now) l' steps (Same-prune t now l l' s h) ho

-- Over steps whose times do not go back, the calls are answered (allowed or not, and until when) as
-- if the housekeeping had never run.
pub answers-only_calls :
    (t : Time) (l : Limiter) (steps : List Step)
    → InOrder t steps
    → answers l steps ≡ answers l (only_calls steps)
answers-only_calls t l steps ho =
    answers-Same t l l steps (record { limits = refl; slots = λ k now h. refl }) ho
