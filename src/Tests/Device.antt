-- ===== src/Tests/Device.antt =====
-- Devices that enroll, are revoked and send signed requests: backend/internal/device.
use netra.Prelude.{
  ap, sym, true, false, ◌-ℤ◌, ◌+ℤ◌, ◌*ℤ◌, ◌^◌, ◌||◌, leb_ℤ, Unicode, ◌==◌, ◌+◌, ◌*◌, ◌≡◌, refl,
  Option, none, some, [], ◌∷◌, inl, inr, pos, negsuc, ◌==ₛ◌, if◌then◌else◌, arith,
}
use Prim.Native.Char.{code}
use netra.Risk.Model.{Time}
use netra.Audit.Chain.{Bytes, equal_hash}
use netra.Audit.Appending.{equal_hash_refl}
use netra.Device.Store.{
  Device, active, EnrollRequest, Token, Tables, Fault, Failure, by_uid, enroll, revoke, find_token,
  validate, consume_nonce,
}
use netra.Device.Enrollment.{by_uid-enroll, is_enrolled}
use netra.Device.Operations.{beating, revoking, apply_all}
use netra.Device.Token.{token_enrolls_once}
use netra.Device.Revocation.{revoked_never_served}
use netra.Device.Signing.{
  Crypto, SigningInput, validate_nonce, max_duration, parse_natural, parse_digits, sub_time, negate,
  verify_signature, check_clock_skew, from_unix, parse_int,
}
use netra.Device.Clock.{check_clock_skew_lem, within_skew}
use netra.Device.Gate.{Request, gate, served}
use netra.Device.Admission.{is_served}
use netra.Device.Replay.{pruning, run, served_once}
use netra.Device.Signed.{Signer, signed_request, gate-signed_request}

abbrev pub sevens : Bytes
sevens =
    7 ∷ 7 ∷ 7 ∷ 7 ∷ 7 ∷ 7 ∷ 7 ∷ 7 ∷ 7 ∷ 7 ∷ 7 ∷ 7 ∷ 7 ∷ 7 ∷ 7 ∷ 7 ∷ 7 ∷ 7 ∷ 7 ∷ 7 ∷ 7 ∷ 7 ∷ 7 ∷ 7
    ∷ 7 ∷ 7 ∷ 7 ∷ 7 ∷ 7 ∷ 7 ∷ 7 ∷ 7 ∷ []

abbrev signature : Bytes
signature =
    7 ∷ 7 ∷ 7 ∷ 7 ∷ 7 ∷ 7 ∷ 7 ∷ 7 ∷ 7 ∷ 7 ∷ 7 ∷ 7 ∷ 7 ∷ 7 ∷ 7 ∷ 7 ∷ 7 ∷ 7 ∷ 7 ∷ 7 ∷ 7 ∷ 7 ∷ 7 ∷ 7
    ∷ 7 ∷ 7 ∷ 7 ∷ 7 ∷ 7 ∷ 7 ∷ 7 ∷ 7 ∷ sevens

-- Characters without upper and lower case; the space is the only white space.
instance abbrev pub caseless : Unicode
caseless = record { upper = λ c. c; lower = λ c. c; fold = λ c. c; is_space = λ c. code c == 32 }

-- One signature that is good for every message of every key.
instance abbrev pub one_signature : Crypto
one_signature = record {
  verify = λ key message raw. equal_hash raw signature;
  sha256 = λ b. b;
  base64 = λ s. if s ==ₛ "c2ln" then some signature else none;
  hex = λ b. "00000000000000000000000000000000000000000000000000000000000000ab";
  utf8 = λ s. [];
}

abbrev pub signer : Signer sevens
signer = record {
  sign = λ m. signature;
  encode = λ b. "c2ln";
  key_length = refl;
  sign_length = λ m. refl;
  verify_sign = λ m. equal_hash_refl signature;
  decode_sign = λ m. refl;
  sign_nonempty = λ m. refl;
}

abbrev laptop_request : EnrollRequest
laptop_request = record {
  device_uid = "laptop-0001";
  hostname = "laptop";
  os_name = "linux";
  os_version = "6";
  agent_version = "1";
  public_key = sevens;
  key_protection = "tpm";
}

abbrev tablet_request : EnrollRequest
tablet_request = record laptop_request { device_uid = "tablet-0001" }

abbrev token : Token
token = record {
  id = 1;
  token_hash = 9 ∷ [];
  label = none;
  created_by = none;
  expires_at = 100;
  used_at = none;
  device_id = none;
}

abbrev one_token : Tables
one_token = record { tokens = token ∷ []; devices = [] }

abbrev pub laptop : Device
laptop = record {
  id = 5;
  device_uid = "laptop-0001";
  hostname = "laptop";
  os_name = "linux";
  os_version = "6";
  agent_version = "1";
  public_key = sevens;
  key_algorithm = "ed25519";
  key_protection = "tpm";
  state = active;
  enrolled_at = some 50;
  last_heartbeat_at = none;
  revoked_at = none;
  revoked_reason = "";
  created_at = 50;
}

enrolls : (enroll Fault.no_fault one_token 50 5 laptop_request (9 ∷ [])).1 ≡ inr laptop
unfolding enroll find_token equal_hash validate by_uid
enrolls = refl

enroll-refused :
    (enroll Fault.commit one_token 50 5 laptop_request (9 ∷ [])).1 ≡ inl Failure.database
unfolding enroll find_token equal_hash validate by_uid
enroll-refused = refl

by_uid-enroll_example :
    by_uid "laptop-0001" (enroll Fault.no_fault one_token 50 5 laptop_request (9 ∷ [])).0.devices
    ≡ (if "laptop-0001" ==ₛ "laptop-0001" then some laptop else by_uid "laptop-0001" [])
by_uid-enroll_example =
    by_uid-enroll Fault.no_fault one_token 50 5 laptop_request (9 ∷ []) laptop "laptop-0001" enrolls

was_enrolled : is_enrolled (enroll Fault.no_fault one_token 50 5 laptop_request (9 ∷ [])).1 ≡ true
unfolding enroll find_token equal_hash validate by_uid
was_enrolled = refl

token_enrolls_once_example :
    is_enrolled
      (enroll Fault.no_fault
        (apply_all
          (enroll Fault.no_fault one_token 50 5 laptop_request (9 ∷ [])).0
          (beating 55 5 "2" ∷ revoking 56 5 "lost" ∷ []))
        60
        6
        tablet_request
        (9 ∷ [])).1
    ≡ false
token_enrolls_once_example =
    token_enrolls_once one_token (9 ∷ []) Fault.no_fault Fault.no_fault 50 60 5 6 laptop_request
      tablet_request (beating 55 5 "2" ∷ revoking 56 5 "lost" ∷ []) was_enrolled

abbrev one_device : Tables
one_device = record { tokens = []; devices = laptop ∷ [] }

-- 100 seconds after 1970.
abbrev now : Time
now = 62135596900 * 1000000000

abbrev request : Request
request = record {
  device_uid = "laptop-0001";
  nonce = "0123456789abcdef";
  signature = "c2ln";
  timestamp = "100";
  method = "GET";
  path = "/";
  body = some (1 ∷ []);
}

finds_laptop : by_uid "laptop-0001" (laptop ∷ []) ≡ some laptop
unfolding by_uid
finds_laptop = refl

revoked_never_served_example :
    is_served
      (gate true
        (apply_all (revoke one_device 60 5 "stolen").0 (beating 61 5 "3" ∷ [])).devices
        []
        now
        request).1
    ≡ false
revoked_never_served_example =
    revoked_never_served true one_device [] 60 now "stolen" laptop request (beating 61 5 "3" ∷ [])
      finds_laptop

request_is_served : (gate true (laptop ∷ []) [] now request).1 ≡ served laptop (1 ∷ [])
unfolding gate by_uid validate_nonce parse_int parse_natural parse_digits check_clock_skew sub_time
    negate from_unix verify_signature equal_hash consume_nonce ◌+ℤ◌ ◌-ℤ◌ ◌*ℤ◌
request_is_served = refl

still_laptop : (d : Device) → by_uid "laptop-0001" (laptop ∷ []) ≡ some d → d.id ≡ 5
unfolding by_uid
still_laptop d h = ap (λ (o : Option Device). elim o [ none ↦ 0 | some x ↦ x.id ]) (sym h)

served_once_example :
    is_served
      (gate true
        (laptop ∷ [])
        (run (gate true (laptop ∷ []) [] now request).0 (pruning (now + 700000000000) ∷ []))
        (now + 700000000000)
        request).1
    ≡ false
served_once_example =
    served_once true true (laptop ∷ []) (laptop ∷ []) [] now (now + 700000000000) request laptop
      (1 ∷ []) (pruning (now + 700000000000) ∷ []) request_is_served (omega arith, omega arith)
      still_laptop

check_clock_skew_lem_example :
    check_clock_skew (pos (2 ^ 63)) (pos 0)
    ≡ (within_skew (pos 0 -ℤ pos (2 ^ 63)) || leb_ℤ (pos 0 -ℤ pos (2 ^ 63)) (negsuc max_duration))
check_clock_skew_lem_example = check_clock_skew_lem (pos (2 ^ 63)) (pos 0)

abbrev input : SigningInput
input = record {
  method = "POST";
  path = "/events";
  timestamp = pos 100;
  nonce = "0123456789abcdef";
  body = 1 ∷ [];
}

valid_nonce : validate_nonce "0123456789abcdef" ≡ true
unfolding validate_nonce
valid_nonce = refl

on_time : check_clock_skew (from_unix (pos 100)) (pos now) ≡ true
unfolding check_clock_skew sub_time negate from_unix ◌+ℤ◌ ◌-ℤ◌ ◌*ℤ◌
on_time = refl

gate-signed_request_example :
    (gate true (laptop ∷ []) [] now (signed_request sevens signer "laptop-0001" input)).1
    ≡ served laptop (1 ∷ [])
gate-signed_request_example =
    gate-signed_request (laptop ∷ []) [] now laptop signer input finds_laptop refl refl valid_nonce
      refl refl refl on_time
