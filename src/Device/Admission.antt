-- ===== src/Device/Admission.antt =====
-- The cases of the gate, as one principle, and what every served request has passed.
use netra.Prelude.{
  ◌≡◌, refl, Bool, true, false, not, ◌&&◌, ◌||◌, &&-eq-true, arith, Option, none, some, List, ℤ,
  pos, Unicode, if◌then◌else◌,
}
use netra.Risk.Model.{Time}
use netra.Audit.Chain.{Bytes}
use netra.Device.Store.{Device, is_active, by_uid, Seen, consume_nonce}
use netra.Device.Signing.{
  Crypto, verify_signature, check_clock_skew, parse_int, from_unix, validate_nonce,
}
use netra.Device.Gate.{
  Request, Verdict, unauthorized, served, input_of, answer, lacks_header, admit, read_body,
  check_time, gate,
}

abbrev pub is_served : Verdict → Bool
is_served (served d body) = true
is_served _ = false

-- Everything that a request has passed before its nonce is consumed.
pub record Passed ⦃u : Unicode⦄ ⦃c : Crypto⦄ (devices : List Device) (now : Time) (r : Request)
    (seconds : ℤ) (body : Bytes) (d : Device) : Type 0 where
  pub complete : lacks_header r ≡ false
  pub nonce_valid : validate_nonce r.nonce ≡ true
  pub timestamp : parse_int r.timestamp ≡ some seconds
  pub in_window : check_clock_skew (from_unix seconds) (pos now) ≡ true
  pub body_read : r.body ≡ some body
  pub known : by_uid r.device_uid devices ≡ some d
  pub active : is_active d.state ≡ true
  pub signed : verify_signature d.public_key (input_of r seconds body) r.signature ≡ true

module _ ⦃u : Unicode⦄ ⦃c : Crypto⦄ (works : Bool) (devices : List Device) (seen : List Seen)
    (now : Time) (r : Request) where
  -- A request is turned away, the nonces left as they were, or it has passed and its nonce decides.
  pub data Outcome : List Seen × Verdict → Type 0 where
    turned_away : (v : Verdict) → is_served v ≡ false → Outcome (seen, v)
    decided :
        (seconds : ℤ) (body : Bytes) (d : Device)
        → Passed devices now r seconds body d
        → Outcome (answer d body (consume_nonce works seen d.id r.nonce (from_unix seconds)))

  by_cases :
      (b : Bool) (x y : List Seen × Verdict)
      → (b ≡ true → Outcome x)
      → (b ≡ false → Outcome y)
      → Outcome (if b then x else y)
  by_cases true x y f g = f refl
  by_cases false x y f g = g refl

  admit-Outcome :
      (seconds : ℤ) (body : Bytes) (o : Option Device)
      → lacks_header r ≡ false
      → validate_nonce r.nonce ≡ true
      → parse_int r.timestamp ≡ some seconds
      → check_clock_skew (from_unix seconds) (pos now) ≡ true
      → r.body ≡ some body
      → by_uid r.device_uid devices ≡ o
      → Outcome (admit works seen r seconds body o)
  unfolding admit
  admit-Outcome seconds body none h n t w b k = turned_away unauthorized refl
  admit-Outcome seconds body (some d) h n t w b k =
      by_cases
        (is_active d.state && verify_signature d.public_key (input_of r seconds body) r.signature) _
        _
        (λ e.
          let both = &&-eq-true (is_active d.state) _ e in
          decided seconds body d (record {
            complete = h;
            nonce_valid = n;
            timestamp = t;
            in_window = w;
            body_read = b;
            known = k;
            active = both.0;
            signed = both.1;
          }))
        (λ e. turned_away unauthorized refl)

  read_body-Outcome :
      (seconds : ℤ) (o : Option Bytes)
      → lacks_header r ≡ false
      → validate_nonce r.nonce ≡ true
      → parse_int r.timestamp ≡ some seconds
      → check_clock_skew (from_unix seconds) (pos now) ≡ true
      → r.body ≡ o
      → Outcome (read_body works devices seen r seconds o)
  unfolding read_body
  read_body-Outcome seconds none h n t w b = turned_away unauthorized refl
  read_body-Outcome seconds (some body) h n t w b =
      admit-Outcome seconds body (by_uid r.device_uid devices) h n t w b refl

  check_time-Outcome :
      (o : Option ℤ)
      → lacks_header r ≡ false
      → validate_nonce r.nonce ≡ true
      → parse_int r.timestamp ≡ o
      → Outcome (check_time works devices seen now r o)
  unfolding check_time
  check_time-Outcome none h n t = turned_away unauthorized refl
  check_time-Outcome (some seconds) h n t =
      by_cases (check_clock_skew (from_unix seconds) (pos now)) _ _
        (λ e. read_body-Outcome seconds r.body h n t e refl) (λ e. turned_away unauthorized refl)

  neither : (a b : Bool) → (a || not b) ≡ false → (a ≡ false) × (b ≡ true)
  neither a b h = ground arith

  pub gate-Outcome : Outcome (gate works devices seen now r)
  unfolding gate
  gate-Outcome =
      by_cases (lacks_header r || not (validate_nonce r.nonce)) _ _
        (λ e. turned_away unauthorized refl)
        (λ e.
          let both = neither (lacks_header r) (validate_nonce r.nonce) e in
          check_time-Outcome (parse_int r.timestamp) both.0 both.1 refl)
