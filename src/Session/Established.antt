-- ===== src/Session/Established.antt =====
-- The cases of Begin (backend/internal/session/store.go), as one principle.
use netra.Prelude.{
  ◌≡◌, refl, String, Bool, true, false, not, Option, none, some, ◌⊎◌, inl, inr, Unicode, arith,
  if◌then◌else◌,
}
use netra.Risk.Model.{Uuid}
use netra.Device.Store.{Device, is_active, Fault}
use netra.Device.Signing.{Crypto}
use netra.Trust.Sessions.{Session, new_session}
use netra.Session.Challenge.{Challenge, find_challenge, verify_attestation}
use netra.Session.Begin.{
  BeginRequest, Failure, attestation, device_unusable, database, validate, Tables, Clock, Begun,
  is_stale, is_answerable, begun_tables, create_session, spend, transact, attest, check,
  begin_session,
}

-- What Begin has found when it creates a session: the device and the challenge.
pub record Grounds ⦃u : Unicode⦄ ⦃k : Crypto⦄ (lookup : String → Option Device) (db : Tables)
    (clock : Clock) (r : BeginRequest) : Type 0 where
  pub device : Device
  pub challenge : Challenge
  pub valid : validate r ≡ none
  pub known : lookup r.device_uid ≡ some device
  pub device_active : is_active device.state ≡ true
  pub reporting : is_stale device.last_heartbeat_at clock.checked ≡ false
  pub signed : verify_attestation device.public_key r.nonce r.subject r.signature ≡ true
  pub issued : find_challenge r.nonce db.challenges ≡ some challenge
  pub answerable : is_answerable r clock.spent challenge ≡ true

module _ ⦃u : Unicode⦄ ⦃k : Crypto⦄ (lookup : String → Option Device)
    (parse_addr : String → Option String) (db : Tables) (clock : Clock) (id : Uuid)
    (r : BeginRequest) where
  abbrev session_of : Device → Session
  session_of d = new_session r.user_id d.id (parse_addr r.source_ip) clock.stamped

  abbrev pub begun_for : Device → Begun
  begun_for d = record {
    id = id;
    session = session_of d;
    device_hostname = d.hostname;
    device_uid = d.device_uid;
  }

  abbrev pub tables_after : Device → Tables
  tables_after d = begun_tables parse_addr Fault.no_fault db clock id r d

  pub data Outcome : Tables × (Failure ⊎ Begun) → Type 0 where
    refused : (f : Failure) → Outcome (db, inl f)
    established :
        (g : Grounds lookup db clock r) → Outcome (tables_after g.device, inr (begun_for g.device))
    -- The answer of Commit is lost.
    unanswered : (g : Grounds lookup db clock r) → Outcome (tables_after g.device, inl database)

  either :
      (b : Bool) (x y : Tables × (Failure ⊎ Begun))
      → (b ≡ true → Outcome x)
      → (b ≡ false → Outcome y)
      → Outcome (if b then x else y)
  either true x y f g = f refl
  either false x y f g = g refl

  create_session-Outcome :
      (fault : Fault) (g : Grounds lookup db clock r)
      → Outcome (create_session parse_addr fault db clock id r fault g.device)
  unfolding create_session
  create_session-Outcome Fault.create g = refused database
  create_session-Outcome Fault.consume g = refused database
  create_session-Outcome Fault.commit g = refused database
  create_session-Outcome Fault.answer g = unanswered g
  create_session-Outcome Fault.no_fault g = established g
  create_session-Outcome Fault.begin g = established g
  create_session-Outcome Fault.lookup g = established g

  module _ (d : Device) (v : validate r ≡ none) (known : lookup r.device_uid ≡ some d)
      (a : is_active d.state ≡ true) (s : is_stale d.last_heartbeat_at clock.checked ≡ false)
      (signed : verify_attestation d.public_key r.nonce r.subject r.signature ≡ true) where
    spend-Outcome :
        (fault : Fault) (o : Option Challenge)
        → find_challenge r.nonce db.challenges ≡ o
        → Outcome (spend parse_addr fault db clock id r d o)
    unfolding spend
    spend-Outcome fault none e = refused Failure.nonce
    spend-Outcome fault (some c) e =
        either (is_answerable r clock.spent c) _ _
          (λ answerable. create_session-Outcome fault (record {
            device = d;
            challenge = c;
            valid = v;
            known = known;
            device_active = a;
            reporting = s;
            signed = signed;
            issued = e;
            answerable = answerable;
          }))
          (λ n. refused Failure.nonce)

    transact-Outcome : (fault : Fault) → Outcome (transact parse_addr fault db clock id r fault d)
    unfolding transact
    transact-Outcome Fault.begin = refused database
    transact-Outcome Fault.lookup = refused database
    transact-Outcome Fault.answer =
        spend-Outcome Fault.answer (find_challenge r.nonce db.challenges) refl
    transact-Outcome Fault.no_fault =
        spend-Outcome Fault.no_fault (find_challenge r.nonce db.challenges) refl
    transact-Outcome Fault.create =
        spend-Outcome Fault.create (find_challenge r.nonce db.challenges) refl
    transact-Outcome Fault.consume =
        spend-Outcome Fault.consume (find_challenge r.nonce db.challenges) refl
    transact-Outcome Fault.commit =
        spend-Outcome Fault.commit (find_challenge r.nonce db.challenges) refl

  not-true : (b : Bool) → not b ≡ false → b ≡ true
  not-true b h = ground arith

  attest-Outcome :
      (fault : Fault) (o : Option Device)
      → validate r ≡ none
      → lookup r.device_uid ≡ o
      → Outcome (attest parse_addr fault db clock id r o)
  unfolding attest
  attest-Outcome fault none v e = refused device_unusable
  attest-Outcome fault (some d) v e =
      either (not (is_active d.state)) _ _ (λ n. refused device_unusable)
        (λ a.
          either (is_stale d.last_heartbeat_at clock.checked) _ _ (λ n. refused device_unusable)
            (λ s.
              either (not (verify_attestation d.public_key r.nonce r.subject r.signature)) _ _
                (λ n. refused attestation)
                (λ w. transact-Outcome d v e (not-true _ a) s (not-true _ w) fault)))

  check-Outcome :
      (fault : Fault) (o : Option Failure)
      → validate r ≡ o
      → Outcome (check parse_addr fault db clock id r lookup o)
  unfolding check
  check-Outcome fault (some f) e = refused f
  check-Outcome fault none e = attest-Outcome fault (lookup r.device_uid) e refl

  pub begin_session-Outcome :
      (fault : Fault) → Outcome (begin_session parse_addr fault db clock id r lookup)
  unfolding begin_session
  begin_session-Outcome fault = check-Outcome fault (validate r) refl
