-- ===== src/Device/Store.antt =====
-- backend/internal/device/store.go: the tables devices, enrollment_tokens and replay_nonces, and the
-- operations on them. A transaction is one step; `Fault` says which of its database calls fails, if
-- one does.
use netra.Prelude.{
  ℕ, ◌+◌, ◌*◌, String, len, Bool, true, false, ◌&&◌, ◌||◌, not, Option, none, some, List, [], ◌∷◌,
  ◌++◌, map, any, select, length, pos_part, ◌⊎◌, inl, inr, ltb, ◌==◌, ◌==ₛ◌, ℤ, pos, ltb_ℤ, leb_ℤ,
  Unicode, trim_space, if◌then◌else◌,
}
use netra.Risk.Model.{Time, Uuid}
use netra.Audit.Chain.{Bytes, equal_hash}

pub data State : Type 0 where
  pending active revoked : State

abbrev pub is_active : State → Bool
is_active active = true
is_active _ = false

abbrev pub is_revoked : State → Bool
is_revoked revoked = true
is_revoked _ = false

pub record Device : Type 0 where
  pub id : Uuid
  pub device_uid : String
  pub hostname : String
  pub os_name : String
  pub os_version : String
  pub agent_version : String
  pub public_key : Bytes
  pub key_algorithm : String
  pub key_protection : String
  pub state : State
  pub enrolled_at : Option Time
  pub last_heartbeat_at : Option Time
  pub revoked_at : Option Time
  pub revoked_reason : String
  pub created_at : Time

pub record EnrollRequest : Type 0 where
  pub device_uid : String
  pub hostname : String
  pub os_name : String
  pub os_version : String
  pub agent_version : String
  pub public_key : Bytes
  pub key_protection : String

-- The rejections of `Validate`, one for each message.
pub data Invalid : Type 0 where
  uid_length hostname_required key_length unknown_protection field_required : Invalid

abbrev is_protection : String → Bool
is_protection s = s ==ₛ "software" || s ==ₛ "tpm" || s ==ₛ "windows-cert-store"

module _ ⦃u : Unicode⦄ where
  abbrev lacks : ℕ → String → Bool
  lacks limit value = trim_space value ==ₛ "" || ltb limit (len value)

  -- `Validate`: none where it returns nil.
  unfoldable pub validate : EnrollRequest → Option Invalid
  validate r =
      if ltb (len (trim_space r.device_uid)) 8 || ltb 128 (len (trim_space r.device_uid))
      then some uid_length
      else if lacks 255 r.hostname
      then some hostname_required
      else if not (length r.public_key == 32)
      then some key_length
      else if not (is_protection r.key_protection)
      then some unknown_protection
      else if any (lacks 128) (r.os_name ∷ r.os_version ∷ r.agent_version ∷ [])
      then some field_required
      else none

pub record Token : Type 0 where
  pub id : Uuid
  pub token_hash : Bytes
  pub label : Option String
  pub created_by : Option Uuid
  pub expires_at : Time
  pub used_at : Option Time
  pub device_id : Option Uuid

pub record Tables : Type 0 where
  pub tokens : List Token
  pub devices : List Device

-- ErrValidation, ErrEnrollmentToken, ErrDeviceExists, ErrDeviceNotFound, ErrDeviceNotActive, and the
-- errors of the database and of the random source.
pub data Failure : Type 0 where
  invalid : Invalid → Failure
  lifetime enrollment_token device_exists device_not_found device_not_active database : Failure

-- `commit`: the server rolls back; `answer`: it commits, and its answer is lost.
pub data Fault : Type 0 where
  no_fault begin lookup create consume commit answer : Fault

-- SELECT ... WHERE token_hash = $1, the column being unique.
unfoldable pub find_token : Bytes → List Token → Option Token
find_token hash [] = none
find_token hash (t ∷ ts) =
    let rest = find_token hash ts in if equal_hash t.token_hash hash then some t else rest

-- SELECT ... WHERE device_uid = $1, the column being unique: `ByUID`.
unfoldable pub by_uid : String → List Device → Option Device
by_uid uid [] = none
by_uid uid (d ∷ ds) = let rest = by_uid uid ds in if d.device_uid ==ₛ uid then some d else rest

-- An UPDATE on the rows that pass a test.
abbrev pub update {ℓ} : {A : Type ℓ} → (A → Bool) → (A → A) → List A → List A
update p f = map (λ a. if p a then f a else a)

abbrev pub is_none {ℓ} : {A : Type ℓ} → Option A → Bool
is_none none = true
is_none (some a) = false

abbrev pub max_lifetime : ℕ
max_lifetime = 30 * 24 * 3600000000000

abbrev null_if_empty : String → Option String
null_if_empty s = if s ==ₛ "" then none else some s

-- `IssueEnrollmentToken` for a drawn plaintext whose digest is `hash`; a digest that is stored already breaks the unique column.
unfoldable pub issue_token :
    Tables → Time → Uuid → Bytes → Option Uuid → String → ℤ → Tables × Option Failure
issue_token db now id hash created_by label ttl =
    if leb_ℤ ttl (pos 0) || ltb_ℤ (pos max_lifetime) ttl
    then (db, some lifetime)
    else if is_none (find_token hash db.tokens)
    then (
      record db {
        tokens =
            db.tokens
            ++ record {
              id = id;
              token_hash = hash;
              label = null_if_empty label;
              created_by = created_by;
              expires_at = now + pos_part ttl;
              used_at = none;
              device_id = none;
            }
              ∷ [];
      },
      none,
    )
    else (db, some database)

abbrev pub is_spendable : Time → Token → Bool
is_spendable now t = is_none t.used_at && not (ltb t.expires_at now)

abbrev pub device_for : Uuid → Time → EnrollRequest → Device
device_for id now r = record {
  id = id;
  device_uid = r.device_uid;
  hostname = r.hostname;
  os_name = r.os_name;
  os_version = r.os_version;
  agent_version = r.agent_version;
  public_key = r.public_key;
  key_algorithm = "ed25519";
  key_protection = r.key_protection;
  state = active;
  enrolled_at = some now;
  last_heartbeat_at = none;
  revoked_at = none;
  revoked_reason = "";
  created_at = now;
}

abbrev pub mark_used : Time → Uuid → Token → Token
mark_used now id t = record t { used_at = some now; device_id = some id }

-- What the INSERT and the UPDATE leave.
abbrev pub enrolled_tables : Tables → Time → Uuid → EnrollRequest → Token → Tables
enrolled_tables db now id r t = record {
  tokens = update (λ s. s.id == t.id) (mark_used now id) db.tokens;
  devices = db.devices ++ device_for id now r ∷ [];
}

-- From the device's row on: the UPDATE of the token and Commit.
unfoldable pub use_token :
    Fault → Tables → Time → Uuid → EnrollRequest → Token → Tables × (Failure ⊎ Device)
use_token Fault.consume db now id r t = (db, inl database)
use_token Fault.commit db now id r t = (db, inl database)
use_token Fault.answer db now id r t = (enrolled_tables db now id r t, inl database)
use_token _ db now id r t = (enrolled_tables db now id r t, inr (device_for id now r))

-- From the INSERT of the device on.
unfoldable pub create_device :
    Fault → Tables → Time → Uuid → EnrollRequest → Token → Tables × (Failure ⊎ Device)
unfolding use_token
create_device Fault.create db now id r t = (db, inl database)
create_device fault db now id r t =
    if is_none (by_uid r.device_uid db.devices)
    then use_token fault db now id r t
    else (db, inl device_exists)

-- The transaction from the row that the SELECT finds on.
unfoldable pub spend :
    Fault → Tables → Time → Uuid → EnrollRequest → Option Token → Tables × (Failure ⊎ Device)
unfolding create_device
spend fault db now id r none = (db, inl enrollment_token)
spend fault db now id r (some t) =
    if is_spendable now t then create_device fault db now id r t else (db, inl enrollment_token)

unfoldable pub transact :
    Fault → Tables → Time → Uuid → EnrollRequest → Bytes → Tables × (Failure ⊎ Device)
unfolding spend
transact Fault.begin db now id r hash = (db, inl database)
transact Fault.lookup db now id r hash = (db, inl database)
transact fault db now id r hash = spend fault db now id r (find_token hash db.tokens)

-- `Enroll`, for a token whose digest, after trimming, is `hash`; the database draws `id`, and `now` is
-- the time of the code's clock and of the transaction.
unfoldable pub enroll :
    ⦃u : Unicode⦄
    → Fault
    → Tables
    → Time
    → Uuid
    → EnrollRequest
    → Bytes
    → Tables × (Failure ⊎ Device)
unfolding transact
enroll ⦃u⦄ fault db now id r hash = elim (validate r) [
  | some error ↦ (db, inl (invalid error))
  | none ↦ transact fault db now id r hash
]

abbrev coalesce : String → String → String
coalesce s old = if s ==ₛ "" then old else s

abbrev pub is_alive : Uuid → Device → Bool
is_alive id d = (d.id == id) && is_active d.state

abbrev pub beat : Time → String → Device → Device
beat now version d = record d {
  last_heartbeat_at = some now;
  agent_version = coalesce version d.agent_version;
}

-- `Heartbeat`; where no row is affected the error is ErrDeviceNotActive.
unfoldable pub heartbeat : Tables → Time → Uuid → String → Tables × Option Failure
heartbeat db now id version = (
  record db { devices = update (is_alive id) (beat now version) db.devices },
  if any (is_alive id) db.devices then none else some device_not_active,
)

abbrev pub is_revocable : Uuid → Device → Bool
is_revocable id d = (d.id == id) && not (is_revoked d.state)

abbrev pub mark_revoked : Time → String → Device → Device
mark_revoked now reason d = record d {
  state = revoked;
  revoked_at = some now;
  revoked_reason = reason;
}

-- `Revoke`; where no row is affected the error is ErrDeviceNotFound.
unfoldable pub revoke : Tables → Time → Uuid → String → Tables × Option Failure
revoke db now id reason = (
  record db { devices = update (is_revocable id) (mark_revoked now reason) db.devices },
  if any (is_revocable id) db.devices then none else some device_not_found,
)

-- The rows of replay_nonces.
pub record Seen : Type 0 where
  pub device_id : Uuid
  pub nonce : String
  pub seen_at : ℤ

abbrev pub is_seen : Uuid → String → List Seen → Bool
is_seen id nonce = any (λ r. (r.device_id == id) && (r.nonce ==ₛ nonce))

pub data Consumed : Type 0 where
  fresh replayed failed : Consumed

-- `ConsumeNonce`; `works` says that the INSERT reaches the table.
unfoldable pub consume_nonce : Bool → List Seen → Uuid → String → ℤ → List Seen × Consumed
consume_nonce works seen id nonce seen_at =
    if not works
    then (seen, failed)
    else if is_seen id nonce seen
    then (seen, replayed)
    else (record { device_id = id; nonce = nonce; seen_at = seen_at } ∷ seen, fresh)

-- `PruneNonces`
unfoldable pub prune_nonces : List Seen → ℤ → List Seen
prune_nonces seen before = select (λ r. not (ltb_ℤ r.seen_at before)) seen
