-- ===== src/Telemetry/Ingest.antt =====
-- backend/internal/telemetry/store.go: Ingest and insert. `session` is the answer of activeSession,
-- `encode` is json.Marshal, and `works` says that the transaction commits.
use netra.Prelude.{
  ℕ, suc, ◌+◌, ◌-◌, String, Bool, false, ◌&&◌, Option, none, some, List, [], ◌∷◌, ◌++◌, any, length,
  ltb, ◌==◌, ◌==ₛ◌, ◌⊎◌, inl, inr, Unicode, if◌then◌else◌,
}
use netra.Risk.Model.{Time, Uuid}
use netra.Telemetry.Event.{
  Metadata, Formats, Inbound, Event, Reason, not_encoded, max_batch_size, normalize,
}

pub record Rejection : Type 0 where
  pub event_id : String
  pub index : ℕ
  pub reason : Reason

-- The rows of events.
pub record Row : Type 0 where
  pub event : Event
  pub user_id : Option Uuid
  pub session_id : Option Uuid
  pub encoded : String
  pub agent_event_id : Option String
  pub batch_id : Uuid

pub record IngestResult : Type 0 where
  pub batch_id : Uuid
  pub accepted : ℕ
  pub duplicates : ℕ
  pub rejected : List Rejection
  pub session_id : Option Uuid

abbrev pub nullable : String → Option String
nullable s = if s ==ₛ "" then none else some s

abbrev pub first_of : Option (Uuid × Uuid) → Option Uuid
first_of none = none
first_of (some (session, user)) = some session

abbrev pub second_of : Option (Uuid × Uuid) → Option Uuid
second_of none = none
second_of (some (session, user)) = some user

module _ ⦃u : Unicode⦄ ⦃f : Formats⦄ (encode : Metadata → Option String) (device_id : Uuid)
    (now : Time) (session : Option (Uuid × Uuid)) (batch_id : Uuid) where
  abbrev pub encoded_row : Event → Option String → Reason ⊎ Row
  encoded_row event none = inl not_encoded
  encoded_row event (some text) = inr (record {
    event = event;
    user_id = second_of session;
    session_id = first_of session;
    encoded = text;
    agent_event_id = nullable event.agent_event_id;
    batch_id = batch_id;
  })

  abbrev pub row_of : Reason ⊎ Event → Reason ⊎ Row
  row_of (inl reason) = inl reason
  row_of (inr event) = encoded_row event (encode event.metadata)

  -- One turn of the loop of Ingest.
  unfoldable pub prepare : Inbound → Reason ⊎ Row
  prepare r = row_of (normalize r device_id now)

  abbrev pub add_result :
      Inbound → ℕ → Reason ⊎ Row → List Row × List Rejection → List Row × List Rejection
  add_result r index (inl reason) (rows, rejected) =
      (rows, record { event_id = r.event_id; index = index; reason = reason } ∷ rejected)
  add_result r index (inr row) (rows, rejected) = (row ∷ rows, rejected)

  -- The loop: the rows to insert and the rejections, both in the order of the batch.
  unfoldable pub prepare_all : ℕ → List Inbound → List Row × List Rejection
  prepare_all index [] = ([], [])
  prepare_all index (r ∷ rs) = add_result r index (prepare r) (prepare_all (suc index) rs)

abbrev pub same_id : Option String → Option String → Bool
same_id (some a) (some b) = a ==ₛ b
same_id _ _ = false

-- The conflict of the unique index on (device_id, agent_event_id) WHERE agent_event_id IS NOT NULL.
abbrev pub conflicts : Row → Row → Bool
conflicts new old =
    (old.event.device_id == new.event.device_id) && same_id old.agent_event_id new.agent_event_id

-- One INSERT, ON CONFLICT DO NOTHING: the table and the number of rows affected.
unfoldable pub insert_row : List Row → Row → List Row × ℕ
insert_row table row = if any (conflicts row) table then (table, 0) else (table ++ row ∷ [], 1)

unfoldable pub insert_all : List Row → List Row → List Row × ℕ
unfolding insert_row
insert_all table [] = (table, 0)
insert_all table (row ∷ rows) =
    let (next, affected) = insert_row table row in
    let (later, inserted) = insert_all next rows in (later, affected + inserted)

-- Every error is the whole batch's: the batch is too long, or the database fails.
pub data Failure : Type 0 where
  batch_too_long database : Failure

module _ (session : Option (Uuid × Uuid)) (batch_id : Uuid) where
  abbrev pub result_of : ℕ → ℕ → List Rejection → IngestResult
  result_of accepted duplicates rejected = record {
    batch_id = batch_id;
    accepted = accepted;
    duplicates = duplicates;
    rejected = rejected;
    session_id = first_of session;
  }

  -- From the prepared rows on.
  unfoldable pub store_rows :
      Bool → List Row → List Row × List Rejection → List Row × (Failure ⊎ IngestResult)
  store_rows works table ([], rejected) = (table, inr (result_of 0 0 rejected))
  store_rows works table (row ∷ rows, rejected) =
      let (later, inserted) = insert_all table (row ∷ rows) in
      if works
      then (later, inr (result_of inserted (length (row ∷ rows) - inserted) rejected))
      else (table, inl database)

  -- `Ingest`
  unfoldable pub ingest :
      ⦃u : Unicode⦄
      → ⦃f : Formats⦄ → Bool
      → (Metadata → Option String)
      → Uuid
      → Time
      → List Row
      → List Inbound
      → List Row × (Failure ⊎ IngestResult)
  unfolding store_rows
  ingest ⦃u⦄ ⦃f⦄ works encode device_id now table inbound =
      if ltb max_batch_size (length inbound)
      then (table, inl batch_too_long)
      else store_rows works table (prepare_all encode device_id now session batch_id 0 inbound)
