-- ===== src/Tests/Session.antt =====
-- Sessions begun with an attestation challenge: backend/internal/session/store.go.
use netra.Prelude.{
  ◌≡◌, refl, String, true, false, Option, none, some, [], ◌∷◌, inl, inr, ◌+ℤ◌, ◌-ℤ◌, ◌*ℤ◌, ◌==ₛ◌,
  if◌then◌else◌, arith,
}
use netra.Audit.Chain.{equal_hash}
use netra.Device.Store.{Device, Fault}
use netra.Device.Signing.{sub_time}
use netra.Trust.Sessions.{new_session}
use netra.Session.Challenge.{
  unused, find_challenge, issue_nonce, validate_nonce_format, verify_attestation,
}
use netra.Session.Begin.{BeginRequest, attestation, validate, Tables, Clock, Begun, begin_session}
use netra.Session.Established.{begun_for}
use netra.Session.Attested.{
  IsAttested, AllOrNothing, begin_session-AllOrNothing, begin_session-IsAttested,
}
use netra.Session.Once.{pruning, apply_all, is_begun, challenge_begins_once}
use netra.Session.Answer.{Attester, signed_request, issue_nonce-begin_session}
use netra.Tests.Device.{caseless, one_signature, signer, sevens, laptop}

format :
    validate_nonce_format "00000000000000000000000000000000000000000000000000000000000000ab" ≡ true
unfolding validate_nonce_format
format = refl

abbrev attester : Attester sevens
attester = record { signer = signer; sign_short = λ m. refl; hex_format = λ b l. format }

-- The laptop, which has just reported.
abbrev alive : Device
alive = record laptop { last_heartbeat_at = some 90 }

abbrev lookup : String → Option Device
lookup uid = if uid ==ₛ "laptop-0001" then some alive else none

abbrev parse_addr : String → Option String
parse_addr s = none

abbrev nonce : String
nonce = "00000000000000000000000000000000000000000000000000000000000000ab"

abbrev tables : Tables
tables = record { challenges = unused nonce 3 1000 ∷ []; sessions = λ id. none }

abbrev clock : Clock
clock = record { checked = 100; spent = 101; stamped = 102 }

abbrev request : BeginRequest
request = record {
  user_id = 3;
  subject = "alice";
  device_uid = "laptop-0001";
  nonce = nonce;
  signature = "c2ln";
  source_ip = "local";
}

abbrev begun : Begun
begun = record {
  id = 8;
  session = new_session 3 5 none 102;
  device_hostname = "laptop";
  device_uid = "laptop-0001";
}

begins : (begin_session parse_addr Fault.no_fault tables clock 8 request lookup).1 ≡ inr begun
unfolding begin_session validate validate_nonce_format verify_attestation equal_hash find_challenge
    sub_time ◌+ℤ◌ ◌-ℤ◌ ◌*ℤ◌
begins = refl

begin_session-IsAttested_example :
    IsAttested lookup tables
      (begin_session parse_addr Fault.no_fault tables clock 8 request lookup).0
      clock
      request
      begun
begin_session-IsAttested_example =
    begin_session-IsAttested lookup parse_addr Fault.no_fault tables clock 8 request begun begins

challenge_begins_once_example :
    is_begun
      (begin_session parse_addr Fault.no_fault
        (apply_all parse_addr
          (begin_session parse_addr Fault.no_fault tables clock 8 request lookup).0
          (pruning 50 ∷ []))
        clock
        9
        request
        lookup).1
    ≡ false
challenge_begins_once_example =
    challenge_begins_once parse_addr Fault.no_fault Fault.no_fault tables clock clock 8 9 request
      request lookup lookup begun (pruning 50 ∷ []) begins refl refl

abbrev forged : BeginRequest
forged = record request { signature = "Zm9y" }

forgery_fails :
    (begin_session parse_addr Fault.no_fault tables clock 8 forged lookup).1 ≡ inl attestation
unfolding begin_session validate validate_nonce_format verify_attestation equal_hash find_challenge
    sub_time ◌+ℤ◌ ◌-ℤ◌ ◌*ℤ◌
forgery_fails = refl

-- The commit takes effect, and its answer is lost.
begin_session-AllOrNothing_example :
    AllOrNothing lookup parse_addr Fault.answer tables clock 8 request
      (begin_session parse_addr Fault.answer tables clock 8 request lookup).0
begin_session-AllOrNothing_example =
    begin_session-AllOrNothing lookup parse_addr Fault.answer tables clock 8 request

abbrev empty : Tables
empty = record { challenges = []; sessions = λ id. none }

issue_nonce-begin_session_example :
    (begin_session parse_addr Fault.no_fault
      (record empty { challenges = (issue_nonce true [] 3 60 (some sevens)).0 })
      clock
      8
      (signed_request sevens attester 3 "alice" "laptop-0001" sevens "local")
      lookup).1
    ≡ inr (
        begun_for lookup parse_addr empty clock 8
          (signed_request sevens attester 3 "alice" "laptop-0001" sevens "local")
          alive)
unfolding find_challenge
issue_nonce-begin_session_example =
    issue_nonce-begin_session lookup parse_addr empty clock 8 3 alive attester "alice" "laptop-0001"
      "local" sevens 60 90 refl refl refl refl refl refl (omega arith) (omega arith)
