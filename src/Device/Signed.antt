-- ===== src/Device/Signed.antt =====
-- A request that a device signs is served: backend/internal/device/signing.go and middleware.go together.
use mathlib.Core.Bool.{true≢false}
use netra.Prelude.{
  ◌^◌, ◌-◌, eq_iff, Bool-cases, inl, inr, ◌≡◌, refl, sym, ap, ◌∙◌, String, Bool, true, false, ◌&&◌,
  ◌||◌, not, none, some, List, length, ℤ, pos, negsuc, leb_ℤ, ltb_ℤ, Unicode, ◌==ₛ◌, if_true,
  if_false, arith,
}
use netra.Prelude.Format.{decimal}
use netra.Risk.Model.{Time}
use netra.Audit.Chain.{Bytes}
use netra.Device.Store.{Device, is_active, by_uid, Seen, is_seen, consume_nonce}
use netra.Device.Signing.{
  Crypto, SigningInput, canonical_string, sign_input, verify_signature, check_clock_skew, parse_int,
  from_unix, validate_nonce,
}
use netra.Device.Gate.{
  Request, Verdict, served, input_of, answer, lacks_header, admit, read_body, check_time, gate,
}
use netra.Device.Decimal.{parse_int-decimal}

-- A key on the device, and how the agent writes signatures: what signing and base64 promise.
pub record Signer ⦃c : Crypto⦄ (public_key : Bytes) : Type 0 where
  pub sign : Bytes → Bytes
  pub encode : Bytes → String
  pub key_length : length public_key ≡ 32
  pub sign_length : (m : Bytes) → length (sign m) ≡ 64
  pub verify_sign : (m : Bytes) → c.verify public_key m (sign m) ≡ true
  pub decode_sign : (m : Bytes) → c.base64 (encode (sign m)) ≡ some (sign m)
  pub sign_nonempty : (m : Bytes) → (encode (sign m) ==ₛ "") ≡ false

module _ ⦃u : Unicode⦄ ⦃c : Crypto⦄ (public_key : Bytes) (s : Signer public_key) where
  -- The request that a device sends.
  abbrev pub signed_request : String → SigningInput → Request
  signed_request device_uid input = record {
    device_uid = device_uid;
    nonce = input.nonce;
    signature = sign_input s.sign s.encode input;
    timestamp = decimal input.timestamp;
    method = input.method;
    path = input.path;
    body = some input.body;
  }

  verify_signature-sign :
      (input : SigningInput)
      → verify_signature public_key input (sign_input s.sign s.encode input) ≡ true
  unfolding verify_signature sign_input
  verify_signature-sign input =
      let message = c.utf8 (canonical_string input) in
      rw (s.decode_sign message)
        (rw s.key_length (rw (s.sign_length message) (s.verify_sign message)))

  signature_nonempty : (input : SigningInput) → (sign_input s.sign s.encode input ==ₛ "") ≡ false
  unfolding sign_input
  signature_nonempty input = s.sign_nonempty (c.utf8 (canonical_string input))

nonce_nonempty : (nonce : String) → validate_nonce nonce ≡ true → (nonce ==ₛ "") ≡ false
unfolding validate_nonce
nonce_nonempty nonce h = elim (Bool-cases (nonce ==ₛ "")) [
  | inl e ↦ absurd (true≢false (sym h ∙ ap validate_nonce ((eq_iff nonce "").0 e)))
  | inr e ↦ e
]

decimal_nonempty :
    (n : ℤ)
    → leb_ℤ (negsuc (2 ^ 63 - 1)) n ≡ true
    → ltb_ℤ n (pos (2 ^ 63)) ≡ true
    → (decimal n ==ₛ "") ≡ false
unfolding parse_int
decimal_nonempty n low high = elim (Bool-cases (decimal n ==ₛ "")) [
  | inl e ↦ absurd (
      none_not_some n
        (sym (ap parse_int ((eq_iff (decimal n) "").0 e)) ∙ parse_int-decimal n low high))
  | inr e ↦ e
]
  where
    none_not_some : (n : ℤ) → ¬ (none ≡ some n)
    none_not_some n h = cc

module _ ⦃u : Unicode⦄ ⦃c : Crypto⦄ where
  -- A request passes every test before its nonce is consumed.
  passed_gate :
      (devices : List Device) (seen : List Seen) (now : Time) (r : Request) (seconds : ℤ)
      (body : Bytes) (d : Device)
      → lacks_header r ≡ false
      → validate_nonce r.nonce ≡ true
      → parse_int r.timestamp ≡ some seconds
      → check_clock_skew (from_unix seconds) (pos now) ≡ true
      → r.body ≡ some body
      → by_uid r.device_uid devices ≡ some d
      → is_active d.state ≡ true
      → verify_signature d.public_key (input_of r seconds body) r.signature ≡ true
      → is_seen d.id r.nonce seen ≡ false
      → (gate true devices seen now r).1 ≡ served d body
  unfolding gate check_time read_body admit consume_nonce
  passed_gate devices seen now r seconds body d h n t w b k a v f =
      ap (λ (p : List Seen × Verdict). p.1)
        (if_false (lacks_header r || not (validate_nonce r.nonce)) _
          (check_time true devices seen now r (parse_int r.timestamp)) (neither _ _ h n))
      ∙ ap (λ o. (check_time true devices seen now r o).1) t
      ∙ ap (λ (p : List Seen × Verdict). p.1)
          (if_true _ (read_body true devices seen r seconds r.body) _ w)
      ∙ ap (λ o. (read_body true devices seen r seconds o).1) b
      ∙ ap (λ o. (admit true seen r seconds body o).1) k
      ∙ ap (λ (p : List Seen × Verdict). p.1)
          (if_true _ (answer d body (consume_nonce true seen d.id r.nonce (from_unix seconds))) _
            (both _ _ a v))
      ∙ rw f refl
    where
      neither : (a b : Bool) → a ≡ false → b ≡ true → (a || not b) ≡ false
      neither a b h k = ground arith

      both : (a b : Bool) → a ≡ true → b ≡ true → (a && b) ≡ true
      both a b h k = ground arith

  complete :
      (uid nonce signature timestamp : Bool)
      → uid ≡ false
      → nonce ≡ false
      → signature ≡ false
      → timestamp ≡ false
      → (uid || nonce || signature || timestamp) ≡ false
  complete uid nonce signature timestamp h k l m = ground arith

  -- A request is served if an active device signed it with its key for the current time: the
  -- timestamp, within the accepted skew, and a well-formed nonce that the device has not used, and
  -- the nonce's INSERT works.
  pub gate-signed_request :
      (devices : List Device) (seen : List Seen) (now : Time) (d : Device) (s : Signer d.public_key)
      (input : SigningInput)
      → by_uid d.device_uid devices ≡ some d
      → (d.device_uid ==ₛ "") ≡ false
      → is_active d.state ≡ true
      → validate_nonce input.nonce ≡ true
      → is_seen d.id input.nonce seen ≡ false
      → leb_ℤ (negsuc (2 ^ 63 - 1)) input.timestamp ≡ true
      → ltb_ℤ input.timestamp (pos (2 ^ 63)) ≡ true
      → check_clock_skew (from_unix input.timestamp) (pos now) ≡ true
      → (gate true devices seen now (signed_request d.public_key s d.device_uid input)).1
        ≡ served d input.body
  gate-signed_request devices seen now d s input k e a n f low high w =
      passed_gate devices seen now (signed_request d.public_key s d.device_uid input)
        input.timestamp input.body d
        (complete _ _ _ _ e (nonce_nonempty input.nonce n) (signature_nonempty d.public_key s input)
          (decimal_nonempty input.timestamp low high))
        n (parse_int-decimal input.timestamp low high) w refl k a
        (verify_signature-sign d.public_key s input) f
