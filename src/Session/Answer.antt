-- ===== src/Session/Answer.antt =====
-- A challenge that is issued can be answered: backend/internal/session/store.go, IssueNonce and Begin together.
use mathlib.Core.Bool.{true≢false}
use netra.Prelude.{
  ◌+◌, ◌≤◌, ◌≡◌, refl, sym, ap, ◌∙◌, String, true, false, ◌&&◌, not, Option, none, some, List, [],
  ◌∷◌, ◌++◌, length, inl, inr, ltb, ◌==◌, ◌==ₛ◌, eq_refl, ℤ, pos, negsuc, ◌-ℤ◌, ltb_ℤ, Unicode,
  Bool-cases, if_true, if_false, arith, int_laws, ltb→lt,
}
use netra.Risk.Model.{Time, Uuid}
use netra.Audit.Chain.{Bytes}
use netra.Device.Store.{Device, is_active, is_none, Fault}
use netra.Device.Signing.{Crypto, sub_time}
use netra.Device.Signed.{Signer}
use netra.Session.Challenge.{
  Challenge, unused, find_challenge, nonce_ttl, issue_nonce, attestation_string, verify_attestation,
  validate_nonce_format,
}
use netra.Session.Begin.{
  BeginRequest, validate, absent_or_long, Tables, Clock, is_stale, heartbeat_freshness,
  create_session, spend, transact, attest, check, begin_session,
}
use netra.Session.Attested.{cut}
use netra.Session.Established.{Grounds, begun_for}

-- A key on the device, with what base64 and hexadecimal digits promise: a signature is written in
-- 88 characters, and 32 bytes in 64 digits.
pub record Attester ⦃u : Unicode⦄ ⦃k : Crypto⦄ (public_key : Bytes) : Type 0 where
  pub signer : Signer public_key
  pub sign_short : (m : Bytes) → absent_or_long 512 (signer.encode (signer.sign m)) ≡ false
  pub hex_format : (b : Bytes) → length b ≡ 32 → validate_nonce_format (k.hex b) ≡ true

module _ ⦃u : Unicode⦄ ⦃k : Crypto⦄ (lookup : String → Option Device)
    (parse_addr : String → Option String) (db : Tables) (clock : Clock) (id : Uuid)
    (r : BeginRequest) where
  -- On these grounds Begin succeeds, if the database does.
  Grounds-begin_session :
      (g : Grounds lookup db clock r)
      → (begin_session parse_addr Fault.no_fault db clock id r lookup).1
        ≡ inr (begun_for lookup parse_addr db clock id r g.device)
  unfolding begin_session check attest transact spend create_session
  Grounds-begin_session g = rw g.valid (
      rw g.known
        (rw g.device_active (rw g.reporting (rw g.signed (rw g.issued (rw g.answerable refl))))))

module _ ⦃u : Unicode⦄ ⦃k : Crypto⦄ (public_key : Bytes) (s : Attester public_key) where
  verify_attestation-sign :
      (nonce subject : String)
      → verify_attestation public_key nonce subject
          (s.signer.encode (s.signer.sign (k.utf8 (attestation_string nonce subject))))
        ≡ true
  unfolding verify_attestation
  verify_attestation-sign nonce subject =
      let message = k.utf8 (attestation_string nonce subject) in
      rw (s.signer.decode_sign message)
        (rw s.signer.key_length (rw (s.signer.sign_length message) (s.signer.verify_sign message)))

cut_under :
    (d : ℤ)
    → ltb_ℤ (pos heartbeat_freshness) d ≡ false
    → ltb_ℤ (pos heartbeat_freshness) (cut d) ≡ false
cut_under (pos n) h = ground arith
cut_under (negsuc n) h = ground arith

not_stale : (at now : Time) → now ≤ at + heartbeat_freshness → is_stale (some at) now ≡ false
unfolding sub_time
not_stale at now h =
    cut_under (pos now -ℤ pos at)
      (elim (Bool-cases (ltb_ℤ (pos heartbeat_freshness) (pos now -ℤ pos at))) [
        | inl e ↦ absurd (omega (int_laws, ltb→lt, ltb→lt _ _ e, h))
        | inr e ↦ e
      ])

find_challenge-append :
    (nonce : String) (cs : List Challenge) (c : Challenge)
    → is_none (find_challenge nonce cs) ≡ true
    → (c.nonce ==ₛ nonce) ≡ true
    → find_challenge nonce (cs ++ c ∷ []) ≡ some c
unfolding find_challenge
find_challenge-append nonce [] c n e = if_true _ _ _ e
find_challenge-append nonce (x ∷ xs) c n e = elim (Bool-cases (x.nonce ==ₛ nonce)) [
  | inl b ↦ absurd (true≢false (sym n ∙ ap is_none (if_true _ _ _ b)))
  | inr b ↦
      if_false _ _ _ b
      ∙ find_challenge-append nonce xs c (ap is_none (sym (if_false _ _ _ b)) ∙ n) e
]

find_challenge-issue :
    ⦃k : Crypto⦄ (cs : List Challenge) (user_id : Uuid) (now : Time) (raw : Bytes)
    → is_none (find_challenge (k.hex raw) cs) ≡ true
    → find_challenge (k.hex raw) (issue_nonce true cs user_id now (some raw)).0
      ≡ some (unused (k.hex raw) user_id (now + nonce_ttl))
unfolding issue_nonce
find_challenge-issue ⦃k⦄ cs user_id now raw n =
    let row = unused (k.hex raw) user_id (now + nonce_ttl) in
    ap (λ (p : List Challenge × Option (String × Time)). find_challenge (k.hex raw) p.0)
      (if_true _ (cs ++ row ∷ [], some (k.hex raw, now + nonce_ttl)) (cs, none) n)
    ∙ find_challenge-append (k.hex raw) cs row n (eq_refl (k.hex raw))

module _ ⦃u : Unicode⦄ ⦃k : Crypto⦄ (public_key : Bytes) (s : Attester public_key) where
  -- The agent's request for a session, with the challenge of these bytes.
  abbrev pub signed_request : Uuid → String → String → Bytes → String → BeginRequest
  signed_request user_id subject device_uid raw source_ip = record {
    user_id = user_id;
    subject = subject;
    device_uid = device_uid;
    nonce = k.hex raw;
    signature = s.signer.encode (s.signer.sign (k.utf8 (attestation_string (k.hex raw) subject)));
    source_ip = source_ip;
  }

  validate-signed_request :
      (user_id : Uuid) (subject device_uid : String) (raw : Bytes) (source_ip : String)
      → length raw ≡ 32
      → absent_or_long 128 device_uid ≡ false
      → validate (signed_request user_id subject device_uid raw source_ip) ≡ none
  unfolding validate
  validate-signed_request user_id subject device_uid raw source_ip l e =
      let message = k.utf8 (attestation_string (k.hex raw) subject) in
      rw (s.hex_format raw l) (rw e (rw (s.sign_short message) refl))

answerable_in_time :
    (user_id : Uuid) (now spent : Time)
    → spent ≤ now + nonce_ttl
    → (not (ltb (now + nonce_ttl) spent) && (user_id == user_id)) ≡ true
answerable_in_time user_id now spent h = ground arith

-- A user who is issued a challenge and presents it within two minutes, signed by the key of an
-- active device that reported within the last fifteen minutes, gets a session on that device, if
-- the drawn challenge is new and no database call fails.
pub issue_nonce-begin_session :
    ⦃u : Unicode⦄ ⦃k : Crypto⦄ (lookup : String → Option Device)
    (parse_addr : String → Option String) (db : Tables) (clock : Clock) (id user_id : Uuid)
    (d : Device) (s : Attester d.public_key) (subject device_uid source_ip : String) (raw : Bytes)
    (now at : Time)
    → length raw ≡ 32
    → is_none (find_challenge (k.hex raw) db.challenges) ≡ true
    → absent_or_long 128 device_uid ≡ false
    → lookup device_uid ≡ some d
    → is_active d.state ≡ true
    → d.last_heartbeat_at ≡ some at
    → clock.checked ≤ at + heartbeat_freshness
    → clock.spent ≤ now + nonce_ttl
    → (begin_session parse_addr Fault.no_fault
        (record db { challenges = (issue_nonce true db.challenges user_id now (some raw)).0 })
        clock
        id
        (signed_request d.public_key s user_id subject device_uid raw source_ip)
        lookup).1
      ≡ inr (
          begun_for lookup parse_addr db clock id
            (signed_request d.public_key s user_id subject device_uid raw source_ip)
            d)
issue_nonce-begin_session ⦃u⦄ ⦃k⦄ lookup parse_addr db clock id user_id d s subject device_uid
      source_ip raw now at l n e kn a hb checked spent =
    Grounds-begin_session lookup parse_addr
      (record db { challenges = (issue_nonce true db.challenges user_id now (some raw)).0 }) clock
      id (signed_request d.public_key s user_id subject device_uid raw source_ip)
      (record {
        device = d;
        challenge = unused (k.hex raw) user_id (now + nonce_ttl);
        valid = validate-signed_request d.public_key s user_id subject device_uid raw source_ip l e;
        known = kn;
        device_active = a;
        reporting = ap (λ o. is_stale o clock.checked) hb ∙ not_stale at clock.checked checked;
        signed = verify_attestation-sign d.public_key s (k.hex raw) subject;
        issued = find_challenge-issue db.challenges user_id now raw n;
        answerable = answerable_in_time user_id now clock.spent spent;
      })
