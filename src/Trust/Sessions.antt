-- ===== src/Trust/Sessions.antt =====
-- The session table and the statements that write to it: `Begin`, `End` and `Touch` of
-- backend/internal/session/store.go and `applyDecision` of backend/internal/trust/evaluator.go, and
-- `Record` of backend/internal/risk/store.go. A
-- statement is one step; a statement that PostgreSQL refuses leaves the table as it is and is not a
-- step.
use netra.Prelude.{
  ◌≡◌, Bool, true, false, Option, none, some, String, ℤ, ◌==◌, if◌then◌else◌, ◌&&◌, not,
}
use netra.Risk.Model.{Time, Uuid}
use netra.Policy.Model.{Decision}

-- The type `session_status` of the database.
pub data Status : Type 0 where
  active restricted isolated ended : Status

abbrev pub is_ended : Status → Bool
is_ended ended = true
is_ended _ = false

pub record Session : Type 0 where
  pub user_id : Uuid
  pub device_id : Uuid
  pub status : Status
  pub attestation : String
  pub source_ip : Option String
  pub current_risk : Option ℤ
  pub current_level : Option String
  pub started_at : Time
  pub last_seen_at : Time
  pub ended_at : Option Time

-- The rows by their `id`.
abbrev pub Sessions : Type 0
Sessions = Uuid → Option Session

-- UPDATE ... WHERE id = $1 AND status <> 'ENDED', on a row.
abbrev pub change_open : (Session → Session) → Option Session → Option Session
change_open f none = none
change_open f (some s) = if is_ended s.status then some s else some (f s)

abbrev pub update_open : Sessions → Uuid → (Session → Session) → Sessions
update_open table id f = λ k. if k == id then change_open f (table k) else table k

-- The UPDATE of `applyDecision`.
unfoldable pub set_status : Sessions → Uuid → Status → Time → Sessions
set_status table id status now =
    update_open table id (λ s. record s { status = status; last_seen_at = now })

unfoldable pub touch : Sessions → Uuid → Time → Sessions
touch table id now = update_open table id (λ s. record s { last_seen_at = now })

abbrev pub scored : ℤ → String → Time → Session → Session
scored score level now s = record s {
  current_risk = some score;
  current_level = some level;
  last_seen_at = now;
}

abbrev pub change_row : (Session → Session) → Option Session → Option Session
change_row f none = none
change_row f (some s) = some (f s)

-- The UPDATE of the risk store's `Record`, which an ENDED session takes too.
unfoldable pub record_risk : Sessions → Uuid → ℤ → String → Time → Sessions
record_risk table id score level now =
    λ k. if k == id then change_row (scored score level now) (table k) else table k

-- The rows that the UPDATE of `End` affects.
abbrev pub is_endable : Uuid → Option Session → Bool
is_endable user_id none = false
is_endable user_id (some s) = (s.user_id == user_id) && not (is_ended s.status)

-- `End`: whether a row was affected; if not, the error is pgx.ErrNoRows.
unfoldable pub end_session : Sessions → Uuid → Uuid → Time → Sessions × Bool
end_session table id user_id now =
    if is_endable user_id (table id)
    then (
      update_open table id
          (λ s. record s { status = ended; ended_at = some now; last_seen_at = now }),
      true,
    )
    else (table, false)

-- The row of the INSERT of `Begin`.
abbrev pub new_session : Uuid → Uuid → Option String → Time → Session
new_session user_id device_id source_ip now = record {
  user_id = user_id;
  device_id = device_id;
  status = active;
  attestation = "device-signature";
  source_ip = source_ip;
  current_risk = none;
  current_level = none;
  started_at = now;
  last_seen_at = now;
  ended_at = none;
}

-- The INSERT of `Begin`; the database draws `id`, which no row has yet.
unfoldable pub insert_session : Sessions → Uuid → Uuid → Uuid → Option String → Time → Sessions
insert_session table id user_id device_id source_ip now =
    λ k. if k == id then some (new_session user_id device_id source_ip now) else table k

-- The status that a decision asks for.
abbrev pub target : Decision → Option Status
target Decision.restrict = some restricted
target Decision.isolate = some isolated
target Decision.deny = some isolated
target _ = none

abbrev pub read_status : Option Session → Option Status
read_status none = none
read_status (some s) = some s.status

-- The two branches of `applyDecision`: the table, and the status that is returned, none for the
-- error of a session that is not there.
unfoldable pub apply_target : Sessions → Uuid → Option Status → Time → Sessions × Option Status
unfolding set_status
apply_target table id none now = (table, read_status (table id))
apply_target table id (some status) now = (set_status table id status now, some status)

unfoldable pub apply_decision : Sessions → Uuid → Decision → Time → Sessions × Option Status
unfolding apply_target
apply_decision table id decision now = apply_target table id (target decision) now

-- One statement.
pub data Step : Sessions → Sessions → Type 0 where
  begun :
      {table : Sessions} (id user_id device_id : Uuid) (source_ip : Option String) (now : Time)
      → table id ≡ none
      → Step table (insert_session table id user_id device_id source_ip now)
  decided :
      {table : Sessions} (id : Uuid) (decision : Decision) (now : Time)
      → Step table (apply_decision table id decision now).0
  was_touched : {table : Sessions} (id : Uuid) (now : Time) → Step table (touch table id now)
  was_scored :
      {table : Sessions} (id : Uuid) (score : ℤ) (level : String) (now : Time)
      → Step table (record_risk table id score level now)
  was_ended :
      {table : Sessions} (id user_id : Uuid) (now : Time)
      → Step table (end_session table id user_id now).0

-- Any number of statements.
pub data Steps : Sessions → Sessions → Type 0 where
  done : {table : Sessions} → Steps table table
  next : {table later last : Sessions} → Step table later → Steps later last → Steps table last
