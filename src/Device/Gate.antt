-- ===== src/Device/Gate.antt =====
-- backend/internal/device/middleware.go: RequireDeviceSignature.
use netra.Prelude.{
  String, Bool, ◌&&◌, ◌||◌, not, Option, none, some, List, ◌==ₛ◌, ℤ, pos, Unicode, if◌then◌else◌,
}
use netra.Risk.Model.{Time}
use netra.Audit.Chain.{Bytes}
use netra.Device.Store.{
  Device, is_active, by_uid, Seen, Consumed, fresh, replayed, failed, consume_nonce,
}
use netra.Device.Signing.{
  Crypto, SigningInput, verify_signature, check_clock_skew, validate_nonce, parse_int, from_unix,
}

-- The headers and the rest of a request; a body that cannot be read, or is above the limit, is none.
pub record Request : Type 0 where
  pub device_uid : String
  pub nonce : String
  pub signature : String
  pub timestamp : String
  pub method : String
  pub path : String
  pub body : Option Bytes

pub data Verdict : Type 0 where
  unauthorized server_error : Verdict
  served : Device → Bytes → Verdict

abbrev pub input_of : Request → ℤ → Bytes → SigningInput
input_of r seconds body = record {
  method = r.method;
  path = r.path;
  timestamp = seconds;
  nonce = r.nonce;
  body = body;
}

abbrev pub answer : Device → Bytes → List Seen × Consumed → List Seen × Verdict
answer d body (seen, fresh) = (seen, served d body)
answer d body (seen, replayed) = (seen, unauthorized)
answer d body (seen, failed) = (seen, server_error)

module _ ⦃u : Unicode⦄ ⦃c : Crypto⦄ where
  -- From the device that `ByUID` finds on.
  unfoldable pub admit :
      Bool → List Seen → Request → ℤ → Bytes → Option Device → List Seen × Verdict
  admit works seen r seconds body none = (seen, unauthorized)
  admit works seen r seconds body (some d) =
      if is_active d.state && verify_signature d.public_key (input_of r seconds body) r.signature
      then answer d body (consume_nonce works seen d.id r.nonce (from_unix seconds))
      else (seen, unauthorized)

  unfoldable pub read_body :
      Bool → List Device → List Seen → Request → ℤ → Option Bytes → List Seen × Verdict
  unfolding admit
  read_body works devices seen r seconds none = (seen, unauthorized)
  read_body works devices seen r seconds (some body) =
      admit works seen r seconds body (by_uid r.device_uid devices)

  unfoldable pub check_time :
      Bool → List Device → List Seen → Time → Request → Option ℤ → List Seen × Verdict
  unfolding read_body
  check_time works devices seen now r none = (seen, unauthorized)
  check_time works devices seen now r (some seconds) =
      if check_clock_skew (from_unix seconds) (pos now)
      then read_body works devices seen r seconds r.body
      else (seen, unauthorized)

  abbrev pub lacks_header : Request → Bool
  lacks_header r = r.device_uid ==ₛ "" || r.nonce ==ₛ "" || r.signature ==ₛ "" || r.timestamp ==ₛ ""

  -- The middleware on one request. `works` says that the nonce's INSERT reaches the table.
  unfoldable pub gate : Bool → List Device → List Seen → Time → Request → List Seen × Verdict
  unfolding check_time
  gate works devices seen now r =
      if lacks_header r || not (validate_nonce r.nonce)
      then (seen, unauthorized)
      else check_time works devices seen now r (parse_int r.timestamp)
