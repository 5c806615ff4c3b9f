-- ===== src/Trust/Enforcement.antt =====
-- What an evaluation does to the session it is about.
use mathlib.Core.Path.{subst}
use netra.Prelude.{
  ◌≡◌, refl, sym, ap, ◌∙◌, true, false, ◌==◌, ==_iff, Option, none, some, ℤ, Bool-cases, inl, inr,
  pos, if_true, if_false, Unicode, String,
}
use netra.Prelude.Double.{Double, IsExact}
use netra.Risk.Model.{Time, Uuid, Assessment, level_text}
use netra.Risk.Engine.{Engine, Inputs}
use netra.Risk.Codes.{names, unattested_is_named}
use netra.Risk.Digits.{◌>>=◌, FitsText}
use netra.Risk.Totality.{FitsTrust, evaluate_total}
use netra.Policy.Model.{Decision}
use netra.Policy.Engine.{new_engine, evaluate as judge}
use netra.Policy.Defaults.{default_policies}
use netra.Policy.Shipped.{KeepsCapitals, shipped_deny_unattested}
use netra.Trust.Sessions.{
  Status, isolated, ended, is_ended, Session, Sessions, change_open, set_status, target,
  read_status, apply_target, apply_decision, record_risk, scored, change_row,
}
use netra.Trust.Evaluator.{request_for, Outcome, conclude, enforce, evaluate}

at_itself : (k : Uuid) → (k == k) ≡ true
at_itself k = (==_iff k k).1 refl

set_status-stored :
    (table : Sessions) (id : Uuid) (status : Status) (now : Time) (s : Session)
    → table id ≡ some s
    → is_ended s.status ≡ false
    → set_status table id status now id ≡ some (record s { status = status; last_seen_at = now })
unfolding set_status
set_status-stored table id status now s e h =
    if_true (id == id) _ _ (at_itself id)
    ∙ ap (change_open (λ s. record s { status = status; last_seen_at = now })) e
    ∙ if_false (is_ended s.status) _ _ h

apply_target-stored :
    (table : Sessions) (id : Uuid) (o : Option Status) (now : Time) (s : Session)
    → table id ≡ some s
    → is_ended s.status ≡ false
    → read_status ((apply_target table id o now).0 id) ≡ (apply_target table id o now).1
unfolding apply_target
apply_target-stored table id none now s e h = refl
apply_target-stored table id (some status) now s e h =
    ap read_status (set_status-stored table id status now s e h)

-- For a session that is there and not ENDED, the status that applyDecision returns is the one
-- stored afterwards.
pub apply_decision-stored :
    (table : Sessions) (id : Uuid) (decision : Decision) (now : Time) (s : Session)
    → table id ≡ some s
    → is_ended s.status ≡ false
    → read_status ((apply_decision table id decision now).0 id)
      ≡ (apply_decision table id decision now).1
unfolding apply_decision
apply_decision-stored table id decision now s e h =
    apply_target-stored table id (target decision) now s e h

-- For an ENDED session and a decision that asks for a status, applyDecision returns the status
-- asked for, while ENDED stays stored.
pub apply_decision_misreports :
    (table : Sessions) (id : Uuid) (decision : Decision) (now : Time) (s : Session)
    (status : Status)
    → table id ≡ some s
    → s.status ≡ ended
    → target decision ≡ some status
    → ((apply_decision table id decision now).1 ≡ some status)
      × (read_status ((apply_decision table id decision now).0 id) ≡ some ended)
unfolding apply_decision apply_target set_status
apply_decision_misreports table id decision now s status e h t = (
  ap (λ o. (apply_target table id o now).1) t,
  ap (λ o. read_status ((apply_target table id o now).0 id)) t
      ∙ ap read_status (
          if_true (id == id) _ _ (at_itself id)
          ∙ ap (change_open (λ s. record s { status = status; last_seen_at = now })) e
          ∙ if_true (is_ended s.status) (some s) _ (ap is_ended h))
      ∙ ap some h,
)

-- A row after the risk is recorded, with the status that it had.
record_risk-row :
    (table : Sessions) (at id : Uuid) (score : ℤ) (level : String) (now : Time) (s : Session)
    → table id ≡ some s
    → is_ended s.status ≡ false
    → (s' : Session) × (record_risk table at score level now id ≡ some s')
      × (is_ended s'.status ≡ false)
unfolding record_risk
record_risk-row table at id score level now s e h = elim (Bool-cases (id == at)) [
  | inl same ↦ (
    scored score level now s,
    if_true (id == at) _ _ same ∙ ap (change_row (scored score level now)) e,
    h,
  )
  | inr other ↦ (s, if_false (id == at) _ _ other ∙ e, h)
]

deny_isolates :
    (table : Sessions) (id : Uuid) (d : Decision) (now : Time)
    → d ≡ Decision.deny
    → (apply_decision table id d now).1 ≡ some isolated
unfolding apply_decision apply_target
deny_isolates table id d now h = ap (λ x. (apply_target table id (target x) now).1) h

-- An evaluation that returns an outcome, isolates the session, and asks for an incident and an alert.
pub record Isolates (id : Uuid) (result : Option (Sessions × Option Outcome)) : Type 0 where
  pub table : Sessions
  pub outcome : Outcome
  pub returned : result ≡ some (table, some outcome)
  pub applied : outcome.applied ≡ isolated
  pub stored : read_status (table id) ≡ some isolated
  pub incident : outcome.decision.create_incident ≡ true
  pub alert : outcome.decision.alert_soc ≡ true

module _ ⦃u : Unicode⦄ {W : Type 0} ⦃d : Double W⦄ (e : Engine W) (i : Inputs W) where
  enforce-Isolates :
      (table : Sessions) (id : Uuid) (a : Assessment) (started finished now : Time) (s : Session)
      → KeepsCapitals u
      → names "UNATTESTED_SESSION" a.factors ≡ true
      → table id ≡ some s
      → is_ended s.status ≡ false
      → Isolates id
          (some (enforce table id default_policies i.resource_sensitivity a started finished now))
  unfolding enforce
  enforce-Isolates table id a started finished now s k named here open_still =
      let request = request_for a i.resource_sensitivity in
      let denied = shipped_deny_unattested request started finished refl k named in
      let decision = judge (new_engine default_policies) request started finished in
      let known = record_risk table a.session_id a.score (level_text a.level) now in
      let asked = deny_isolates known id decision.decision now denied.0 in
      let (s', there, still_open) =
        record_risk-row table a.session_id id a.score (level_text a.level) now s here open_still in
      record {
        table = (apply_decision known id decision.decision now).0;
        outcome = record { assessment = a; decision = decision; applied = isolated };
        returned =
            ap
              (λ o. some ((apply_decision known id decision.decision now).0, conclude a decision o))
              asked;
        applied = refl;
        stored = apply_decision-stored known id decision.decision now s' there still_open ∙ asked;
        incident = denied.1;
        alert = denied.2;
      }

  -- With exact small arithmetic, an identity weight of 1 and numbers that the formatting holds,
  -- evaluating a session that has no device attestation and is not ENDED, under the shipped
  -- policies, returns an outcome, stores the status ISOLATED and reports it, and asks for an
  -- incident and an alert.
  pub unattested_is_isolated :
      (table : Sessions) (id : Uuid) (trigger : String) (started finished now : Time) (s : Session)
      → KeepsCapitals u
      → IsExact d
      → e.weights.identity ≡ d.of_int (pos 1)
      → FitsTrust i.device_trust_score
      → FitsText i.access_volume_z_score
      → i.session_attested ≡ false
      → table id ≡ some s
      → is_ended s.status ≡ false
      → Isolates id (evaluate e default_policies table id i trigger started finished now)
  unfolding evaluate
  unattested_is_isolated table id trigger started finished now s k x w ht hz un here open_still =
      let assessed = evaluate_total e i ht hz in
      let named = unattested_is_named e i x w un assessed.0 assessed.1 in
      subst
        (λ o. Isolates id (
          o >>= (λ a. some (
            enforce table id default_policies i.resource_sensitivity
              (record a { trigger_event = trigger }) started finished now))))
        (sym assessed.1)
        (enforce-Isolates table id (record assessed.0 { trigger_event = trigger }) started finished
          now s k named here open_still)
