-- ===== src/Session/Attested.antt =====
-- Begin (backend/internal/session/store.go): what an attempt leaves, and what a session that was
-- begun rests on.
use mathlib.Core.Bool.{true≢false}
use mathlib.Core.Path.{subst}
use mathlib.Core.Sum.{inr-injective}
use netra.Prelude.{
  ◌+◌, ◌≤◌, ◌<◌, ◌-ℤ◌, lt→ltb, ltb→lt, Bool-cases, ℕ, ℤ, negsuc, ◌≡◌, refl, sym, ◌∙◌, String, true,
  false, ◌&&◌, not, Option, none, some, ◌⊎◌, inl, inr, ltb, ◌==◌, if_true, pos, ltb_ℤ, Unicode,
  &&-eq-true, arith, int_laws, if◌then◌else◌,
}
use netra.Risk.Model.{Time, Uuid}
use netra.Device.Store.{Device, State, is_active, is_none, Fault}
use netra.Device.Signing.{Crypto, sub_time, max_duration}
use netra.Device.Operations.{id_refl}
use netra.Trust.Sessions.{Status, insert_session}
use netra.Session.Challenge.{Challenge, find_challenge, verify_attestation}
use netra.Session.Begin.{
  BeginRequest, Failure, Tables, Clock, Begun, is_stale, heartbeat_freshness, begin_session,
}
use netra.Session.Once.{every_dead, consumed_dead}
use netra.Session.Established.{
  Grounds, Outcome, refused, established, unanswered, begun_for, tables_after,
  begin_session-Outcome,
}

-- What a session that was begun rests on: an active device that reported in the last 15 minutes
-- and signed the challenge for the subject; a challenge that was issued to the user, unused and not
-- expired. The session is stored, active, and is the user's on that device.
pub record IsAttested ⦃k : Crypto⦄ (lookup : String → Option Device) (before after : Tables)
    (clock : Clock) (r : BeginRequest) (b : Begun) : Type 0 where
  pub device : Device
  pub heartbeat : Time
  pub challenge : Challenge
  pub known : lookup r.device_uid ≡ some device
  pub device_active : device.state ≡ State.active
  pub reported : device.last_heartbeat_at ≡ some heartbeat
  pub recent : clock.checked ≤ heartbeat + heartbeat_freshness
  pub signed : verify_attestation device.public_key r.nonce r.subject r.signature ≡ true
  pub issued : find_challenge r.nonce before.challenges ≡ some challenge
  pub unused : challenge.used_at ≡ none
  pub unexpired : clock.spent ≤ challenge.expires_at
  pub own : challenge.user_id ≡ r.user_id
  pub stored : after.sessions b.id ≡ some b.session
  pub session_active : b.session.status ≡ Status.active
  pub session_user : b.session.user_id ≡ r.user_id
  pub session_device : b.session.device_id ≡ device.id

active_only : (s : State) → is_active s ≡ true → s ≡ State.active
active_only State.active h = refl
active_only State.pending h = cc
active_only State.revoked h = cc

abbrev pub cut : ℤ → ℤ
cut d =
    if ltb_ℤ (pos max_duration) d
    then pos max_duration
    else if ltb_ℤ d (negsuc max_duration)
    then negsuc max_duration
    else d

cut_over :
    (d : ℤ)
    → ltb_ℤ (pos heartbeat_freshness) d ≡ true
    → ltb_ℤ (pos heartbeat_freshness) (cut d) ≡ true
cut_over (pos n) h = ground arith
cut_over (negsuc n) h = ground arith

stale_when_late :
    (at now : Time)
    → at + heartbeat_freshness < now
    → ltb_ℤ (pos heartbeat_freshness) (sub_time (pos now) (pos at)) ≡ true
unfolding sub_time
stale_when_late at now h =
    let late : ltb_ℤ (pos heartbeat_freshness) (pos now -ℤ pos at) ≡ true =
      lt→ltb _ _ (omega (int_laws, h)) in
    cut_over (pos now -ℤ pos at) late

not_over : (a b : ℕ) → ltb a b ≡ false → b ≤ a
not_over a b h = ground arith

fresh_heartbeat :
    (o : Option Time) (now : Time)
    → is_stale o now ≡ false
    → (at : Time) × (o ≡ some at) × (now ≤ at + heartbeat_freshness)
fresh_heartbeat none now h = cc
fresh_heartbeat (some at) now h = (
  at,
  refl,
  not_over (at + heartbeat_freshness) now (elim (Bool-cases (ltb (at + heartbeat_freshness) now)) [
    | inl e ↦ absurd (true≢false (sym (stale_when_late at now (ltb→lt _ _ e)) ∙ h))
    | inr e ↦ e
  ]),
)

is_none-true : {A : Type 0} → (o : Option A) → is_none o ≡ true → o ≡ none
is_none-true none h = refl
is_none-true (some a) h = cc

within : (a b : Time) → not (ltb b a) ≡ true → a ≤ b
within a b h = ground arith

same : (a b : Uuid) → (a == b) ≡ true → a ≡ b
same a b h = ground arith

module _ ⦃u : Unicode⦄ ⦃k : Crypto⦄ (lookup : String → Option Device)
    (parse_addr : String → Option String) (fault : Fault) (db : Tables) (clock : Clock) (id : Uuid)
    (r : BeginRequest) where
  -- The row of the session that is begun, or would be answered.
  established-IsAttested :
      (g : Grounds lookup db clock r)
      → IsAttested lookup db
          (tables_after lookup parse_addr db clock id r g.device)
          clock
          r
          (begun_for lookup parse_addr db clock id r g.device)
  unfolding insert_session
  established-IsAttested g =
      let (at, reported, recent) =
        fresh_heartbeat g.device.last_heartbeat_at clock.checked g.reporting in
      let (rest, own) =
        &&-eq-true (is_none g.challenge.used_at && not (ltb g.challenge.expires_at clock.spent)) _
          g.answerable in
      let (unspent, alive) = &&-eq-true (is_none g.challenge.used_at) _ rest in
      record {
        device = g.device;
        heartbeat = at;
        challenge = g.challenge;
        known = g.known;
        device_active = active_only g.device.state g.device_active;
        reported = reported;
        recent = recent;
        signed = g.signed;
        issued = g.issued;
        unused = is_none-true g.challenge.used_at unspent;
        unexpired = within clock.spent g.challenge.expires_at alive;
        own = same g.challenge.user_id r.user_id own;
        stored = if_true (id == id) _ (db.sessions id) (id_refl id);
        session_active = refl;
        session_user = refl;
        session_device = refl;
      }

  Outcome-IsAttested :
      (x : Tables × (Failure ⊎ Begun)) (b : Begun)
      → Outcome lookup parse_addr db clock id r x
      → x.1 ≡ inr b
      → IsAttested lookup db x.0 clock r b
  Outcome-IsAttested x b (refused f) h = cc
  Outcome-IsAttested x b (unanswered g) h = cc
  Outcome-IsAttested x b (established g) h =
      subst (IsAttested lookup db (tables_after lookup parse_addr db clock id r g.device) clock r)
        (inr-injective (begun_for lookup parse_addr db clock id r g.device) b h)
        (established-IsAttested g)

  -- What an attempt leaves: the tables as they were, or a new session that rests on what
  -- `IsAttested` lists, with no unused row of the challenge.
  abbrev pub AllOrNothing : Tables → Type 0
  AllOrNothing after =
      (after ≡ db)
      ⊎ ((b : Begun) × IsAttested lookup db after clock r b
          × (every_dead r.nonce after.challenges ≡ true))

  Outcome-AllOrNothing :
      (x : Tables × (Failure ⊎ Begun))
      → Outcome lookup parse_addr db clock id r x
      → AllOrNothing x.0
  Outcome-AllOrNothing x (refused f) = inl refl
  Outcome-AllOrNothing x (unanswered g) =
      inr (_, established-IsAttested g, consumed_dead r.nonce id clock.stamped db.challenges)
  Outcome-AllOrNothing x (established g) =
      inr (_, established-IsAttested g, consumed_dead r.nonce id clock.stamped db.challenges)

  -- Whatever Begin answers and whichever database call fails, the lost answer of a commit included,
  -- the tables are left as they were, or hold a session that rests on what `IsAttested` lists and
  -- no unused row of the challenge: never a session without its grounds or beside an unspent
  -- challenge.
  pub begin_session-AllOrNothing :
      AllOrNothing (begin_session parse_addr fault db clock id r lookup).0
  begin_session-AllOrNothing =
      Outcome-AllOrNothing (begin_session parse_addr fault db clock id r lookup)
        (begin_session-Outcome lookup parse_addr db clock id r fault)

  -- A session is begun only on the grounds that `IsAttested` lists, and it is then in the table.
  pub begin_session-IsAttested :
      (b : Begun)
      → (begin_session parse_addr fault db clock id r lookup).1 ≡ inr b
      → IsAttested lookup db (begin_session parse_addr fault db clock id r lookup).0 clock r b
  begin_session-IsAttested b h =
      Outcome-IsAttested (begin_session parse_addr fault db clock id r lookup) b
        (begin_session-Outcome lookup parse_addr db clock id r fault) h
