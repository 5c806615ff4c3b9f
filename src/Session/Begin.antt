-- ===== src/Session/Begin.antt =====
-- backend/internal/session/store.go: Validate and Begin. `parse_addr` is netip.ParseAddr followed by
-- String, and `lookup` the device module's ByUID; `Fault` says which call of the transaction fails.
use netra.Prelude.{
  ℕ, ◌*◌, String, len, Bool, true, ◌&&◌, ◌||◌, not, Option, none, some, List, ◌⊎◌, inl, inr, ltb,
  ◌==◌, ◌==ₛ◌, pos, ltb_ℤ, Unicode, trim_space, if◌then◌else◌,
}
use netra.Risk.Model.{Time, Uuid}
use netra.Device.Store.{Device, is_active, is_none, Fault}
use netra.Device.Signing.{Crypto, sub_time}
use netra.Trust.Sessions.{Session, Sessions, new_session, insert_session}
use netra.Session.Challenge.{
  Challenge, find_challenge, validate_nonce_format, verify_attestation, consume_challenge,
}

abbrev pub heartbeat_freshness : ℕ
heartbeat_freshness = 15 * 60 * 1000000000

pub record BeginRequest : Type 0 where
  pub user_id : Uuid
  pub subject : String
  pub device_uid : String
  pub nonce : String
  pub signature : String
  pub source_ip : String

-- ErrNonce, ErrAttestation, ErrDeviceUnusable, ErrValidation, and the errors of the database.
pub data Failure : Type 0 where
  nonce attestation device_unusable validation database : Failure

abbrev pub absent_or_long : ⦃u : Unicode⦄ → ℕ → String → Bool
absent_or_long ⦃u⦄ limit s = trim_space s ==ₛ "" || ltb limit (len s)

-- `Validate`: none where it returns nil.
unfoldable pub validate : ⦃u : Unicode⦄ → BeginRequest → Option Failure
validate ⦃u⦄ r =
    if not (validate_nonce_format r.nonce)
    then some Failure.nonce
    else if absent_or_long 128 r.device_uid || absent_or_long 512 r.signature
    then some validation
    else none

pub record Tables : Type 0 where
  pub challenges : List Challenge
  pub sessions : Sessions

-- The times at which the code reads the clock, and the transaction's own.
pub record Clock : Type 0 where
  pub checked : Time
  pub spent : Time
  pub stamped : Time

-- The session that is returned, with what is added for display.
pub record Begun : Type 0 where
  pub id : Uuid
  pub session : Session
  pub device_hostname : String
  pub device_uid : String

abbrev pub is_stale : Option Time → Time → Bool
is_stale none now = true
is_stale (some at) now = ltb_ℤ (pos heartbeat_freshness) (sub_time (pos now) (pos at))

abbrev pub is_answerable : BeginRequest → Time → Challenge → Bool
is_answerable r now c = is_none c.used_at && not (ltb c.expires_at now) && (c.user_id == r.user_id)

module _ (parse_addr : String → Option String) (fault : Fault) (db : Tables) (clock : Clock)
    (id : Uuid) (r : BeginRequest) where
  -- What the INSERT and the UPDATE leave.
  abbrev pub begun_tables : Device → Tables
  begun_tables d = record {
    challenges = consume_challenge db.challenges id r.nonce clock.stamped;
    sessions = insert_session db.sessions id r.user_id d.id (parse_addr r.source_ip) clock.stamped;
  }

  -- The two INSERT and UPDATE statements and Commit.
  unfoldable pub create_session : Fault → Device → Tables × (Failure ⊎ Begun)
  create_session Fault.create d = (db, inl database)
  create_session Fault.consume d = (db, inl database)
  create_session Fault.commit d = (db, inl database)
  create_session Fault.answer d = (begun_tables d, inl database)
  create_session _ d = (
    begun_tables d,
    inr (record {
      id = id;
      session = new_session r.user_id d.id (parse_addr r.source_ip) clock.stamped;
      device_hostname = d.hostname;
      device_uid = d.device_uid;
    }),
  )

  -- From the row that the SELECT finds on.
  unfoldable pub spend : Device → Option Challenge → Tables × (Failure ⊎ Begun)
  unfolding create_session
  spend d none = (db, inl Failure.nonce)
  spend d (some c) =
      if is_answerable r clock.spent c then create_session fault d else (db, inl Failure.nonce)

  unfoldable pub transact : Fault → Device → Tables × (Failure ⊎ Begun)
  unfolding spend
  transact Fault.begin d = (db, inl database)
  transact Fault.lookup d = (db, inl database)
  transact _ d = spend d (find_challenge r.nonce db.challenges)

  module _ ⦃c : Crypto⦄ where
    unfoldable pub attest : Option Device → Tables × (Failure ⊎ Begun)
    unfolding transact
    attest none = (db, inl device_unusable)
    attest (some d) =
        if not (is_active d.state)
        then (db, inl device_unusable)
        else if is_stale d.last_heartbeat_at clock.checked
        then (db, inl device_unusable)
        else if not (verify_attestation d.public_key r.nonce r.subject r.signature)
        then (db, inl attestation)
        else transact fault d

    unfoldable pub check : (String → Option Device) → Option Failure → Tables × (Failure ⊎ Begun)
    unfolding attest
    check lookup (some error) = (db, inl error)
    check lookup none = attest (lookup r.device_uid)

    -- `Begin`; the database draws `id`.
    unfoldable pub begin_session :
        ⦃u : Unicode⦄ → (String → Option Device) → Tables × (Failure ⊎ Begun)
    unfolding check
    begin_session ⦃u⦄ lookup = check lookup (validate r)
