-- ===== src/Telemetry/Retry.antt =====
-- backend/internal/telemetry/store.go: a batch that is sent again inserts nothing.
use mathlib.Core.Path.{subst}
use mathlib.Core.Sum.{inr-injective}
use netra.Prelude.{
  any-append, ℕ, suc, ◌+◌, ◌-◌, ◌≡◌, refl, sym, ap, ◌∙◌, String, len, Bool, true, false, ◌&&◌, ◌||◌,
  not, Option, none, some, List, [], ◌∷◌, ◌++◌, any, length, ltb, ◌==◌, ◌==ₛ◌, eq_refl, ◌⊎◌, inl,
  inr, Unicode, trim_space, Bool-cases, if_true, if_false, &&-eq-true, arith, if◌then◌else◌,
}
use netra.Risk.Model.{Time, Uuid}
use netra.Telemetry.Event.{
  Metadata, Formats, Inbound, Event, Reason, is_known_type, is_known_severity, default_severity,
  copy_metadata, unknown_type, unknown_severity, event_id_length, metadata_entries,
  max_event_id_len, max_metadata_entries, is_drifted, drift_of, corrected_event, claimed_event,
  with_metadata, settle_time, normalize,
}
use netra.Telemetry.Ingest.{
  Rejection, Row, IngestResult, nullable, same_id, prepare, row_of, add_result, prepare_all,
  conflicts, insert_row, insert_all, Failure, result_of, ingest,
}
use netra.Telemetry.Batch.{Outcome, failed, stored, ingest-Outcome}

-- Every row is in the table already, up to its device and its id.
abbrev all_stored : List Row → List Row → Bool
all_stored table [] = true
all_stored table (row ∷ rows) = any (conflicts row) table && all_stored table rows

insert_all-all_stored :
    (table rows : List Row) → all_stored table rows ≡ true → insert_all table rows ≡ (table, 0)
unfolding insert_all insert_row
insert_all-all_stored table [] h = refl
insert_all-all_stored table (row ∷ rows) h =
    let (here, rest) = &&-eq-true (any (conflicts row) table) (all_stored table rows) h in
    ap (λ (p : List Row × ℕ). ((insert_all p.0 rows).0, p.1 + (insert_all p.0 rows).1))
      (if_true _ (table, 0) (table ++ row ∷ [], 1) here)
    ∙ ap (λ (p : List Row × ℕ). (p.0, 0 + p.1)) (insert_all-all_stored table rows rest)

abbrev has_id : Row → Bool
has_id row = same_id row.agent_event_id row.agent_event_id

abbrev all_have_id : List Row → Bool
all_have_id [] = true
all_have_id (row ∷ rows) = has_id row && all_have_id rows

insert_row_keeps :
    (p : Row → Bool) (table : List Row) (row : Row)
    → any p table ≡ true
    → any p (insert_row table row).0 ≡ true
unfolding insert_row
insert_row_keeps p table row h = ground (arith, any-append p table (row ∷ []))

insert_all_keeps :
    (p : Row → Bool) (table rows : List Row)
    → any p table ≡ true
    → any p (insert_all table rows).0 ≡ true
unfolding insert_all
insert_all_keeps p table [] h = h
insert_all_keeps p table (row ∷ rows) h =
    insert_all_keeps p (insert_row table row).0 rows (insert_row_keeps p table row h)

insert_row_stores :
    (table : List Row) (row : Row)
    → has_id row ≡ true
    → any (conflicts row) (insert_row table row).0 ≡ true
unfolding insert_row
insert_row_stores table row h = ground (arith, any-append (conflicts row) table (row ∷ []))

insert_all_stores :
    (table rows : List Row)
    → all_have_id rows ≡ true
    → all_stored (insert_all table rows).0 rows ≡ true
unfolding insert_all
insert_all_stores table [] h = refl
insert_all_stores table (row ∷ rows) h =
    let (here, rest) = &&-eq-true (has_id row) (all_have_id rows) h in
    ground (
      arith,
      insert_all_keeps (conflicts row) (insert_row table row).0 rows
          (insert_row_stores table row here),
      insert_all_stores (insert_row table row).0 rows rest,
    )

-- The two runs of an event reject it for the same reason or give it the same device and id.
data Alike {A : Type 0} (same : A → A → Type 0) : Reason ⊎ A → Reason ⊎ A → Type 0 where
  both_rejected : (e : Reason) → Alike same (inl e) (inl e)
  both_accepted : {a b : A} → same a b → Alike same (inr a) (inr b)

module _ {A : Type 0} {same : A → A → Type 0} where
  choose-Alike :
      (b : Bool) (e : Reason) (x y : Reason ⊎ A)
      → Alike same x y
      → Alike same (if b then inl e else x) (if b then inl e else y)
  choose-Alike true e x y h = both_rejected e
  choose-Alike false e x y h = h

-- The event or the row of an inbound event keeps the device and the id.
abbrev IsEventOf : ⦃u : Unicode⦄ → Inbound → Uuid → Event → Type 0
IsEventOf ⦃u⦄ r device_id e = (e.device_id ≡ device_id) × (e.agent_event_id ≡ trim_space r.event_id)

abbrev IsRowOf : ⦃u : Unicode⦄ → Inbound → Uuid → Row → Type 0
IsRowOf ⦃u⦄ r device_id row =
    (row.event.device_id ≡ device_id) × (row.agent_event_id ≡ nullable (trim_space r.event_id))

abbrev Both : {A : Type 0} → (A → Type 0) → A → A → Type 0
Both is a b = is a × is b

module _ ⦃u : Unicode⦄ ⦃f : Formats⦄ (r : Inbound) (device_id : Uuid) (now later : Time) where
  settle_time-IsEventOf :
      (at : Time) (m : Metadata) → IsEventOf r device_id (settle_time r device_id at m)
  unfolding settle_time
  settle_time-IsEventOf at m = elim (Bool-cases (is_drifted (drift_of r at))) [
    | inl b ↦
        subst (IsEventOf r device_id)
          (sym (if_true _ (corrected_event r device_id at m) (claimed_event r device_id at m) b))
          (refl, refl)
    | inr b ↦
        subst (IsEventOf r device_id)
          (sym (if_false _ (corrected_event r device_id at m) (claimed_event r device_id at m) b))
          (refl, refl)
  ]

  with_metadata-Alike :
      (o : Reason ⊎ Metadata)
      → Alike
          (Both (IsEventOf r device_id))
          (with_metadata r device_id now o)
          (with_metadata r device_id later o)
  with_metadata-Alike (inl e) = both_rejected e
  with_metadata-Alike (inr m) =
      both_accepted (settle_time-IsEventOf now m, settle_time-IsEventOf later m)

  normalize-Alike :
      Alike (Both (IsEventOf r device_id)) (normalize r device_id now) (normalize r device_id later)
  unfolding normalize
  normalize-Alike = choose-Alike (not (is_known_type r.event_type)) unknown_type _ _ (
      choose-Alike (not (is_known_severity (default_severity r.severity))) unknown_severity _ _ (
        choose-Alike (ltb max_event_id_len (len r.event_id)) event_id_length _ _ (
          choose-Alike (ltb max_metadata_entries (length r.metadata)) metadata_entries _ _
            (with_metadata-Alike (copy_metadata r.metadata [])))))

-- JSON encodes every map of strings.
abbrev pub IsTotal : (Metadata → Option String) → Type 0
IsTotal encode = (m : Metadata) → (text : String) × (encode m ≡ some text)

module _ ⦃u : Unicode⦄ ⦃f : Formats⦄ (encode : Metadata → Option String) (total : IsTotal encode)
    (device_id : Uuid) (now later : Time) (session session' : Option (Uuid × Uuid))
    (batch_id batch_id' : Uuid) where
  row_of-Alike :
      (r : Inbound) (o o' : Reason ⊎ Event)
      → Alike (Both (IsEventOf r device_id)) o o'
      → Alike
          (Both (IsRowOf r device_id))
          (row_of encode device_id now session batch_id o)
          (row_of encode device_id later session' batch_id' o')
  row_of-Alike r o o' (both_rejected e) = both_rejected e
  row_of-Alike r o o' (both_accepted {a} {b} ((d, i), (d', i'))) =
      let (text, e) = total a.metadata in
      let (text', e') = total b.metadata in
      rw e (rw e' (both_accepted ((d, ap nullable i), (d', ap nullable i'))))

  prepare-Alike :
      (r : Inbound)
      → Alike
          (Both (IsRowOf r device_id))
          (prepare encode device_id now session batch_id r)
          (prepare encode device_id later session' batch_id' r)
  unfolding prepare
  prepare-Alike r =
      row_of-Alike r (normalize r device_id now) (normalize r device_id later)
        (normalize-Alike r device_id now later)

  add_stored :
      (table : List Row) (r : Inbound) (index : ℕ) (o o' : Reason ⊎ Row)
      (p p' : List Row × List Rejection)
      → Alike (Both (IsRowOf r device_id)) o o'
      → (all_stored table p.0 ≡ true → all_stored table p'.0 ≡ true)
      → all_stored table (add_result encode device_id now session batch_id r index o p).0 ≡ true
      → all_stored table (add_result encode device_id later session' batch_id' r index o' p').0
        ≡ true
  add_stored table r index o o' (rows, rejected) (rows', rejected') (both_rejected e) k h = k h
  add_stored table r index o o' (rows, rejected) (rows', rejected')
        (both_accepted {a} {b} ((d, i), (d', i'))) k h =
      let (here, rest) = &&-eq-true (any (conflicts a) table) (all_stored table rows) h in
      and_true _ _
        (ap
            (λ x.
              any
                (λ (old : Row).
                  (old.event.device_id == x) && same_id old.agent_event_id b.agent_event_id)
                table)
            (d' ∙ sym d)
          ∙ ap
              (λ x.
                any
                  (λ (old : Row).
                    (old.event.device_id == a.event.device_id) && same_id old.agent_event_id x)
                  table)
              (i' ∙ sym i)
          ∙ here)
        (k rest)
    where
      and_true : (a b : Bool) → a ≡ true → b ≡ true → (a && b) ≡ true
      and_true a b h k = ground arith

  prepare_all_stored :
      (table : List Row) (index : ℕ) (inbound : List Inbound)
      → all_stored table (prepare_all encode device_id now session batch_id index inbound).0 ≡ true
      → all_stored table (prepare_all encode device_id later session' batch_id' index inbound).0
        ≡ true
  unfolding prepare_all
  prepare_all_stored table index [] h = refl
  prepare_all_stored table index (r ∷ rs) h =
      add_stored table r index (prepare encode device_id now session batch_id r)
        (prepare encode device_id later session' batch_id' r)
        (prepare_all encode device_id now session batch_id (suc index) rs)
        (prepare_all encode device_id later session' batch_id' (suc index) rs) (prepare-Alike r)
        (prepare_all_stored table (suc index) rs) h

  add_have_id :
      (r : Inbound) (index : ℕ) (o o' : Reason ⊎ Row) (p : List Row × List Rejection)
      → Alike (Both (IsRowOf r device_id)) o o'
      → (trim_space r.event_id ==ₛ "") ≡ false
      → all_have_id p.0 ≡ true
      → all_have_id (add_result encode device_id now session batch_id r index o p).0 ≡ true
  add_have_id r index o o' (rows, rejected) (both_rejected e) n h = h
  add_have_id r index o o' (rows, rejected) (both_accepted {a} {b} ((d, i), same)) n h =
      let named : a.agent_event_id ≡ some (trim_space r.event_id) =
        i ∙ if_false _ none (some (trim_space r.event_id)) n in
      ap (λ b. b && all_have_id rows)
        (ap (λ x. same_id x x) named ∙ eq_refl (trim_space r.event_id))
      ∙ h

  prepare_all_have_id :
      (index : ℕ) (inbound : List Inbound)
      → any (λ (r : Inbound). trim_space r.event_id ==ₛ "") inbound ≡ false
      → all_have_id (prepare_all encode device_id now session batch_id index inbound).0 ≡ true
  unfolding prepare_all
  prepare_all_have_id index [] n = refl
  prepare_all_have_id index (r ∷ rs) n =
      add_have_id r index (prepare encode device_id now session batch_id r)
        (prepare encode device_id later session' batch_id' r)
        (prepare_all encode device_id now session batch_id (suc index) rs) (prepare-Alike r)
        (first _ _ n) (prepare_all_have_id (suc index) rs (last _ _ n))
    where
      first : (a b : Bool) → (a || b) ≡ false → a ≡ false
      first a b h = ground arith

      last : (a b : Bool) → (a || b) ≡ false → b ≡ false
      last a b h = ground arith

is_stored :
    (session : Option (Uuid × Uuid)) (batch_id : Uuid) (table : List Row)
    (p : List Row × List Rejection) (x : List Row × (Failure ⊎ IngestResult))
    (result : IngestResult)
    → Outcome session batch_id table p x
    → x.1 ≡ inr result
    → all_have_id p.0 ≡ true
    → all_stored x.0 p.0 ≡ true
is_stored session batch_id table p x result (failed e) h i = cc
is_stored session batch_id table p x result (stored rows rejected) h i =
    insert_all_stores table rows i

is_unchanged :
    (session : Option (Uuid × Uuid)) (batch_id : Uuid) (table : List Row)
    (p : List Row × List Rejection) (x : List Row × (Failure ⊎ IngestResult))
    (result : IngestResult)
    → Outcome session batch_id table p x
    → x.1 ≡ inr result
    → all_stored table p.0 ≡ true
    → (x.0 ≡ table) × (result.accepted ≡ 0)
is_unchanged session batch_id table p x result (failed e) h i = cc
is_unchanged session batch_id table p x result (stored rows rejected) h i =
    let none_new = insert_all-all_stored table rows i in
    let is =
      inr-injective
        (result_of session batch_id (insert_all table rows).1
          (length rows - (insert_all table rows).1) rejected)
        result h in
    (
      ap (λ (q : List Row × ℕ). q.0) none_new,
      ap (λ (z : IngestResult). z.accepted) (sym is) ∙ ap (λ (q : List Row × ℕ). q.1) none_new,
    )

-- A batch that is sent again, at any later time and in whatever session, stores nothing and counts
-- no event as accepted, if each of its events has an id that is not blank.
pub ingest_again :
    ⦃u : Unicode⦄
    → ⦃f : Formats⦄
    → (session session' : Option (Uuid × Uuid)) (batch_id batch_id' : Uuid) (works works' : Bool)
      (encode : Metadata → Option String) (device_id : Uuid) (now later : Time) (table : List Row)
      (inbound : List Inbound) (result result' : IngestResult)
    → IsTotal encode
    → any (λ (r : Inbound). trim_space r.event_id ==ₛ "") inbound ≡ false
    → (ingest session batch_id works encode device_id now table inbound).1 ≡ inr result
    → (ingest session' batch_id' works' encode device_id later
        (ingest session batch_id works encode device_id now table inbound).0
        inbound).1
      ≡ inr result'
    → ((ingest session' batch_id' works' encode device_id later
          (ingest session batch_id works encode device_id now table inbound).0
          inbound).0
        ≡ (ingest session batch_id works encode device_id now table inbound).0)
      × (result'.accepted ≡ 0)
ingest_again ⦃u⦄ ⦃f⦄ session session' batch_id batch_id' works works' encode device_id now later
      table inbound result result' total n h h' =
    let first = ingest session batch_id works encode device_id now table inbound in
    let prepared = prepare_all encode device_id now session batch_id 0 inbound in
    let prepared' = prepare_all encode device_id later session' batch_id' 0 inbound in
    is_unchanged session' batch_id' first.0 prepared'
      (ingest session' batch_id' works' encode device_id later first.0 inbound) result'
      (ingest-Outcome session' batch_id' first.0 works' encode device_id later inbound) h'
      (prepare_all_stored encode total device_id now later session session' batch_id batch_id'
        first.0 0 inbound
        (is_stored session batch_id table prepared first result
          (ingest-Outcome session batch_id table works encode device_id now inbound) h
          (prepare_all_have_id encode total device_id now later session session' batch_id batch_id'
            0 inbound n)))
