-- ===== src/Policy/Strictest.antt =====
-- The outcome of Evaluate is the most restrictive of all matching policies.
use Prim.Native.Nat.{max}
use mathlib.Core.List.{Memᴰ, Permᴰ}
use netra.Prelude.{
  ℕ, ◌≤◌, ◌≡◌, refl, ap, ◌∙◌, Bool, true, false, ◌&&◌, ◌||◌, List, [], ◌∷◌, sub_ℕ, arith, any,
  select, any-perm, select-perm, mem-select, any-mem, sort_stable-perm, Unicode, if_false,
  if◌then◌else◌,
}
use netra.Risk.Model.{Time}
use netra.Policy.Model.{severity, Policy, Request, Result}
use netra.Policy.Engine.{
  Engine, evaluates_before, new_engine, matches, consider_one, consider, initial, evaluate,
}

or_assoc : (a b c : Bool) → ((a || b) || c) ≡ (a || (b || c))
or_assoc a b c = ground arith

module _ ⦃u : Unicode⦄ (r : Request) where
  -- The policy takes part in decisions about the request.
  abbrev pub applies : Policy → Bool
  applies p = matches p.conditions r

  -- The specification: the greatest severity among the policies that apply, 0 if none does.
  abbrev pub strictest : List Policy → ℕ
  strictest [] = 0
  strictest (p ∷ ps) = max (if applies p then severity p.actions.decision else 0) (strictest ps)

  abbrev pub asks_incident : Policy → Bool
  asks_incident p = applies p && p.actions.create_incident

  abbrev pub asks_alert : Policy → Bool
  asks_alert p = applies p && p.actions.alert_soc

  severity-consider_one :
      (x : Result) (p : Policy)
      → severity (consider_one r x p).decision
        ≡ max (severity x.decision) (if applies p then severity p.actions.decision else 0)
  unfolding consider_one
  severity-consider_one x p = ground arith

  actions-consider_one :
      (x : Result) (p : Policy)
      → ((consider_one r x p).create_incident ≡ (x.create_incident || asks_incident p))
        × ((consider_one r x p).alert_soc ≡ (x.alert_soc || asks_alert p))
  unfolding consider_one
  actions-consider_one x p = ground arith

  severity-consider :
      (x : Result) (ps : List Policy)
      → severity (consider r x ps).decision ≡ max (severity x.decision) (strictest ps)
  unfolding consider
  severity-consider x [] = omega arith
  severity-consider x (p ∷ ps) =
      omega (arith, severity-consider (consider_one r x p) ps, severity-consider_one x p)

  actions-consider :
      (x : Result) (ps : List Policy)
      → ((consider r x ps).create_incident ≡ (x.create_incident || any asks_incident ps))
        × ((consider r x ps).alert_soc ≡ (x.alert_soc || any asks_alert ps))
  unfolding consider
  actions-consider x [] = (ground arith, ground arith)
  actions-consider x (p ∷ ps) =
      let rest = actions-consider (consider_one r x p) ps in
      let one = actions-consider_one x p in
      (
        rest.0 ∙ rw one.0 (or_assoc x.create_incident (asks_incident p) (any asks_incident ps)),
        rest.1 ∙ rw one.1 (or_assoc x.alert_soc (asks_alert p) (any asks_alert ps)),
      )

  strictest-perm : {ps qs : List Policy} → Permᴰ ps qs → strictest ps ≡ strictest qs
  strictest-perm Permᴰ.nil = refl
  strictest-perm (Permᴰ.cons e h) = rw (e, strictest-perm h)
  strictest-perm (Permᴰ.swap {l = l} e e') = rw (e, e') (omega arith)
  strictest-perm (Permᴰ.trans h k) = strictest-perm h ∙ strictest-perm k

  -- The enabled policies, as they were stored.
  abbrev pub active : List Policy → List Policy
  active = select (λ p. p.enabled)

  pub policies-perm : (ps : List Policy) → Permᴰ (new_engine ps).policies (active ps)
  unfolding new_engine
  policies-perm ps = sort_stable-perm evaluates_before (active ps)

  pub active-perm : {ps qs : List Policy} → Permᴰ ps qs → Permᴰ (active ps) (active qs)
  active-perm h = select-perm (λ p. p.enabled) h

  module _ (started finished : Time) (live : r.degraded ≡ false) where
    pub evaluate_live :
        (e : Engine)
        → evaluate e r started finished
          ≡ record (consider r (initial started) e.policies) { latency = sub_ℕ finished started }
    unfolding evaluate
    evaluate_live e = if_false r.degraded _ _ live

    -- While the control plane is reachable, the severity of the decision is the greatest severity
    -- among the enabled policies that match the request, 0 if there is none; an incident is created
    -- exactly if some enabled matching policy asks for one, and the SOC is alerted exactly if some
    -- such policy asks for that.
    pub evaluate-strictest :
        (ps : List Policy)
        → let x = evaluate (new_engine ps) r started finished in
          (severity x.decision ≡ strictest (active ps))
          × (x.create_incident ≡ any asks_incident (active ps))
          × (x.alert_soc ≡ any asks_alert (active ps))
    evaluate-strictest ps =
        let x = initial started in
        let sorted = (new_engine ps).policies in
        let normal = evaluate_live (new_engine ps) in
        (
          ap (λ y. severity y.decision) normal
              ∙ severity-consider x sorted
              ∙ rw (strictest-perm (policies-perm ps)) (omega arith),
          ap (λ y. y.create_incident) normal
              ∙ (actions-consider x sorted).0
              ∙ any-perm asks_incident (policies-perm ps),
          ap (λ y. y.alert_soc) normal
              ∙ (actions-consider x sorted).1
              ∙ any-perm asks_alert (policies-perm ps),
        )

-- A stored policy that is enabled and matches bounds the decision from below.
module _ ⦃u : Unicode⦄ (r : Request) (p : Policy) (hit : applies r p ≡ true) where
  strictest-mem : (ps : List Policy) → Memᴰ p ps → severity p.actions.decision ≤ strictest r ps
  strictest-mem [] m = elim m [ ]
  strictest-mem (q ∷ ps) (Memᴰ.head e) = rw (← e, hit) (omega arith)
  strictest-mem (q ∷ ps) (Memᴰ.tail m) = omega (arith, strictest-mem ps m)

  mem-active : (ps : List Policy) → p.enabled ≡ true → Memᴰ p ps → Memᴰ p (active r ps)
  mem-active ps h m = mem-select (λ q. q.enabled) p ps h m

  -- While the control plane is reachable, no enabled policy that matches the request is stricter
  -- than the decision.
  pub evaluate-at_least :
      (ps : List Policy) (started finished : Time)
      → r.degraded ≡ false
      → p.enabled ≡ true
      → Memᴰ p ps
      → severity p.actions.decision
        ≤ severity (evaluate (new_engine ps) r started finished).decision
  evaluate-at_least ps started finished live on m = omega (
    arith,
    (evaluate-strictest r started finished live ps).0,
    strictest-mem (active r ps) (mem-active ps on m),
  )

  -- The actions that an enabled matching policy asks for are taken.
  pub evaluate_takes_actions :
      (ps : List Policy) (started finished : Time)
      → r.degraded ≡ false
      → p.enabled ≡ true
      → Memᴰ p ps
      → let x = evaluate (new_engine ps) r started finished in
        (p.actions.create_incident ≡ true → x.create_incident ≡ true)
        × (p.actions.alert_soc ≡ true → x.alert_soc ≡ true)
  evaluate_takes_actions ps started finished live on m =
      let total = evaluate-strictest r started finished live ps in
      let stored = mem-active ps on m in
      (
        λ asked. total.1 ∙ any-mem (asks_incident r) p (active r ps) (rw (hit, asked) refl) stored,
        λ asked. total.2 ∙ any-mem (asks_alert r) p (active r ps) (rw (hit, asked) refl) stored,
      )
