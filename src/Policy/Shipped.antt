-- ===== src/Policy/Shipped.antt =====
-- What the shipped policies guarantee of every request.
use Prim.Native.Char.{Char, code}
use mathlib.Core.List.{Memᴰ}
use netra.Prelude.{
  ◌≤◌, &&-eq-true, String, ◌≡◌, refl, Bool, true, false, ◌&&◌, ◌||◌, pos, ◌≤ℤ◌, ltb_ℤ, leb, ◌==◌,
  arith, Unicode, map_text, equal_fold,
}
use netra.Risk.Model.{Time, Action, Level, recommended_action}
use netra.Policy.Model.{Decision, severity, Policy, Request}
use netra.Policy.Engine.{new_engine, matches, present, evaluate}
use netra.Policy.Defaults.{
  baseline_low, baseline_medium, baseline_elevated, baseline_high, baseline_critical,
  critical_resource_guard, unattested_session, default_policies,
}
use netra.Policy.Strictest.{applies, evaluate-at_least, evaluate_takes_actions}

-- unicode.ToUpper leaves capital letters and the underscore alone.
abbrev is_capital : Char → Bool
is_capital c = (leb 65 (code c) && leb (code c) 90) || code c == 95

abbrev all_capital : String → Bool
all_capital String.[] = true
all_capital (String.◌∷◌ c s) = is_capital c && all_capital s

pub record KeepsCapitals (u : Unicode) : Type 0 where
  pub upper_capital : (c : Char) → is_capital c ≡ true → u.upper c ≡ c

map_text-capital :
    (u : Unicode) → KeepsCapitals u → (s : String) → all_capital s ≡ true → map_text u.upper s ≡ s
map_text-capital u k String.[] h = refl
map_text-capital u k (String.◌∷◌ c s) h =
    let both = &&-eq-true (is_capital c) (all_capital s) h in
    rw (k.upper_capital c both.0, map_text-capital u k s both.1)

-- The decision that enforces a recommended action.
abbrev pub enforcing : Action → Decision
enforcing Action.allow = Decision.allow
enforcing Action.allow_monitor = Decision.allow_monitor
enforcing Action.verify = Decision.verify
enforcing Action.step_up_mfa = Decision.step_up_mfa
enforcing Action.restrict = Decision.restrict
enforcing Action.isolate = Decision.isolate

-- The baseline policy of a level.
abbrev baseline : Level → Policy
baseline Level.low = baseline_low
baseline Level.medium = baseline_medium
baseline Level.elevated = baseline_elevated
baseline Level.high = baseline_high
baseline Level.critical = baseline_critical

baseline-mem : (l : Level) → Memᴰ (baseline l) default_policies
baseline-mem Level.low = Memᴰ.head refl
baseline-mem Level.medium = Memᴰ.tail (Memᴰ.head refl)
baseline-mem Level.elevated = Memᴰ.tail (Memᴰ.tail (Memᴰ.head refl))
baseline-mem Level.high = Memᴰ.tail (Memᴰ.tail (Memᴰ.tail (Memᴰ.head refl)))
baseline-mem Level.critical = Memᴰ.tail (Memᴰ.tail (Memᴰ.tail (Memᴰ.tail (Memᴰ.head refl))))

baseline-severity :
    (l : Level)
    → (severity (enforcing (recommended_action l)) ≡ severity (baseline l).actions.decision)
      × ((baseline l).enabled ≡ true)
unfolding recommended_action
baseline-severity Level.low = (refl, refl)
baseline-severity _ = (refl, refl)

guard-mem : Memᴰ critical_resource_guard default_policies
guard-mem = search (Memᴰ.head, Memᴰ.tail) depth 9

unattested-mem : Memᴰ unattested_session default_policies
unattested-mem = search (Memᴰ.head, Memᴰ.tail) depth 9

deny_of_severity : (x : Decision) → 6 ≤ severity x → x ≡ Decision.deny
deny_of_severity Decision.deny h = refl
deny_of_severity _ h = absurd (omega arith)

module _ ⦃u : Unicode⦄ (r : Request) (started finished : Time) (live : r.degraded ≡ false) where
  baseline-applies : (l : Level) → r.assessment.level ≡ l → applies r (baseline l) ≡ true
  unfolding matches
  baseline-applies Level.low e = rw e (ground arith)
  baseline-applies _ e = rw e (ground arith)

  -- While the control plane is reachable, the shipped policies are never more lenient than the
  -- action recommended for the assessment's level.
  pub shipped_enforce_level :
      severity (enforcing (recommended_action r.assessment.level))
      ≤ severity (evaluate (new_engine default_policies) r started finished).decision
  shipped_enforce_level =
      let l = r.assessment.level in
      let b = baseline-severity l in
      omega (
        arith,
        b.0,
        evaluate-at_least r (baseline l) (baseline-applies l refl) default_policies started finished
            live b.1 (baseline-mem l),
      )

  guard_applies :
      pos 51 ≤ℤ r.assessment.score
      → equal_fold "CRITICAL" r.resource_sensitivity ≡ true
      → applies r critical_resource_guard ≡ true
  unfolding matches
  guard_applies h e =
      let above : ltb_ℤ r.assessment.score (pos 51) ≡ false = ground arith in rw (above, e)

  -- While the control plane is reachable, a request for a critical resource at a score of 51 or
  -- more is at least restricted under the shipped policies, and an incident is created for it.
  pub shipped_guard_critical :
      pos 51 ≤ℤ r.assessment.score
      → equal_fold "CRITICAL" r.resource_sensitivity ≡ true
      → let x = evaluate (new_engine default_policies) r started finished in
        (severity Decision.restrict ≤ severity x.decision) × (x.create_incident ≡ true)
  shipped_guard_critical h e =
      let hit = guard_applies h e in
      (
        evaluate-at_least r critical_resource_guard hit default_policies started finished live refl
            guard-mem,
        (evaluate_takes_actions r critical_resource_guard hit default_policies started finished live
              refl guard-mem).0
            refl,
      )

  pub unattested_applies :
      KeepsCapitals u
      → present r.assessment.factors "UNATTESTED_SESSION" ≡ true
      → applies r unattested_session ≡ true
  unfolding matches
  unattested_applies k e = rw (map_text-capital u k "UNATTESTED_SESSION" refl) (rw e refl)

  -- While the control plane is reachable, the shipped policies deny every request whose assessment
  -- names UNATTESTED_SESSION, create an incident for it and alert the SOC.
  pub shipped_deny_unattested :
      KeepsCapitals u
      → present r.assessment.factors "UNATTESTED_SESSION" ≡ true
      → let x = evaluate (new_engine default_policies) r started finished in
        (x.decision ≡ Decision.deny) × (x.create_incident ≡ true) × (x.alert_soc ≡ true)
  shipped_deny_unattested k e =
      let hit = unattested_applies k e in
      let acts =
        evaluate_takes_actions r unattested_session hit default_policies started finished live refl
          unattested-mem in
      (
        deny_of_severity _ (
            evaluate-at_least r unattested_session hit default_policies started finished live refl
              unattested-mem),
        acts.0 refl,
        acts.1 refl,
      )
