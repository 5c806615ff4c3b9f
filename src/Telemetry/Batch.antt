-- ===== src/Telemetry/Batch.antt =====
-- backend/internal/telemetry/store.go: what the result of Ingest counts, and the rows it stores.
use mathlib.Core.Path.{subst}
use mathlib.Core.Sum.{inr-injective}
use netra.Prelude.{
  ℕ, suc, ◌+◌, ◌-◌, ◌≤◌, ◌≡◌, refl, ap, ◌∙◌, String, Bool, true, false, Option, List, [], ◌∷◌, ◌++◌,
  length, ltb, ◌⊎◌, inl, inr, Unicode, arith, if◌then◌else◌,
}
use netra.Risk.Model.{Time, Uuid}
use netra.Telemetry.Event.{Metadata, Formats, Inbound, Reason, max_batch_size}
use netra.Telemetry.Ingest.{
  Rejection, Row, IngestResult, prepare, add_result, prepare_all, insert_row, insert_all, Failure,
  batch_too_long, database, result_of, store_rows, ingest,
}

affected_one : (table : List Row) (row : Row) → (insert_row table row).1 ≤ 1
unfolding insert_row
affected_one table row = ground arith

inserted-length : (table rows : List Row) → (insert_all table rows).1 ≤ length rows
unfolding insert_all
inserted-length table [] = omega arith
inserted-length table (row ∷ rows) =
    omega (arith, affected_one table row, inserted-length (insert_row table row).0 rows)

length-append : (table : List Row) (row : Row) → length (table ++ row ∷ []) ≡ length table + 1
length-append [] row = refl
length-append (r ∷ rs) row = omega (arith, length-append rs row)

-- A table grows by the rows that an INSERT affects.
length-insert_row :
    (table : List Row) (row : Row)
    → length (insert_row table row).0 ≡ length table + (insert_row table row).1
unfolding insert_row
length-insert_row table row = ground (arith, length-append table row)

length-insert_all :
    (table rows : List Row)
    → length (insert_all table rows).0 ≡ length table + (insert_all table rows).1
unfolding insert_all
length-insert_all table [] = omega arith
length-insert_all table (row ∷ rows) =
    omega (arith, length-insert_row table row, length-insert_all (insert_row table row).0 rows)

module _ ⦃u : Unicode⦄ ⦃f : Formats⦄ (encode : Metadata → Option String) (device_id : Uuid)
    (now : Time) (session : Option (Uuid × Uuid)) (batch_id : Uuid) where
  length-add_result :
      (r : Inbound) (index : ℕ) (o : Reason ⊎ Row) (p : List Row × List Rejection)
      → length (add_result encode device_id now session batch_id r index o p).0
          + length (add_result encode device_id now session batch_id r index o p).1
        ≡ suc (length p.0 + length p.1)
  length-add_result r index (inl reason) (rows, rejected) = omega arith
  length-add_result r index (inr row) (rows, rejected) = omega arith

  length-prepare_all :
      (index : ℕ) (inbound : List Inbound)
      → length (prepare_all encode device_id now session batch_id index inbound).0
          + length (prepare_all encode device_id now session batch_id index inbound).1
        ≡ length inbound
  unfolding prepare_all
  length-prepare_all index [] = refl
  length-prepare_all index (r ∷ rs) =
      length-add_result r index (prepare encode device_id now session batch_id r)
        (prepare_all encode device_id now session batch_id (suc index) rs)
      ∙ ap suc (length-prepare_all (suc index) rs)

module _ (session : Option (Uuid × Uuid)) (batch_id : Uuid) (table : List Row) where
  -- An ingestion fails and stores nothing, or stores what is prepared.
  pub data Outcome : List Row × List Rejection → List Row × (Failure ⊎ IngestResult) → Type 0 where
    failed : {p : List Row × List Rejection} (e : Failure) → Outcome p (table, inl e)
    stored :
        (rows : List Row) (rejected : List Rejection)
        → Outcome
            (rows, rejected)
            (
              (insert_all table rows).0,
              inr (
                  result_of session batch_id
                    (insert_all table rows).1
                    (length rows - (insert_all table rows).1)
                    rejected),
            )

  store_rows-Outcome :
      (works : Bool) (p : List Row × List Rejection)
      → Outcome p (store_rows session batch_id works table p)
  unfolding store_rows insert_all
  store_rows-Outcome works ([], rejected) = stored [] rejected
  store_rows-Outcome true (row ∷ rows, rejected) = stored (row ∷ rows) rejected
  store_rows-Outcome false (row ∷ rows, rejected) = failed database

  pub ingest-Outcome :
      ⦃u : Unicode⦄
      → ⦃f : Formats⦄
      → (works : Bool) (encode : Metadata → Option String) (device_id : Uuid) (now : Time)
        (inbound : List Inbound)
      → Outcome
          (prepare_all encode device_id now session batch_id 0 inbound)
          (ingest session batch_id works encode device_id now table inbound)
  unfolding ingest
  ingest-Outcome ⦃u⦄ ⦃f⦄ works encode device_id now inbound =
      by_length (ltb max_batch_size (length inbound))
    where
      by_length :
          (b : Bool)
          → Outcome (prepare_all encode device_id now session batch_id 0 inbound) (
              if b
              then (table, inl batch_too_long)
              else store_rows session batch_id works table
                  (prepare_all encode device_id now session batch_id 0 inbound))
      by_length true = failed batch_too_long
      by_length false =
          store_rows-Outcome works (prepare_all encode device_id now session batch_id 0 inbound)

  counted :
      (p : List Row × List Rejection) (x : List Row × (Failure ⊎ IngestResult))
      (result : IngestResult)
      → Outcome p x
      → x.1 ≡ inr result
      → (result.accepted + result.duplicates + length result.rejected ≡ length p.0 + length p.1)
        × (length x.0 ≡ length table + result.accepted)
  counted p x result (failed e) h = cc
  counted p x result (stored rows rejected) h =
      let inserted = (insert_all table rows).1 in
      let is =
        inr-injective (result_of session batch_id inserted (length rows - inserted) rejected) result
          h in
      subst
        (λ (z : IngestResult).
          (z.accepted + z.duplicates + length z.rejected ≡ length rows + length rejected)
          × (length (insert_all table rows).0 ≡ length table + z.accepted))
        is (omega (arith, inserted-length table rows), length-insert_all table rows)

  kept :
      (p : List Row × List Rejection) (x : List Row × (Failure ⊎ IngestResult)) (e : Failure)
      → Outcome p x
      → x.1 ≡ inl e
      → x.0 ≡ table
  kept p x e (failed g) h = refl
  kept p x e (stored rows rejected) h = cc

-- Every event of a batch that is ingested is counted once, as accepted, as a duplicate or as
-- rejected, and the table grows by the accepted ones.
pub ingest-length :
    ⦃u : Unicode⦄
    → ⦃f : Formats⦄
    → (session : Option (Uuid × Uuid)) (batch_id : Uuid) (works : Bool)
      (encode : Metadata → Option String) (device_id : Uuid) (now : Time) (table : List Row)
      (inbound : List Inbound) (result : IngestResult)
    → (ingest session batch_id works encode device_id now table inbound).1 ≡ inr result
    → (result.accepted + result.duplicates + length result.rejected ≡ length inbound)
      × (length (ingest session batch_id works encode device_id now table inbound).0
          ≡ length table + result.accepted)
ingest-length ⦃u⦄ ⦃f⦄ session batch_id works encode device_id now table inbound result h =
    let (total, grown) =
      counted session batch_id table (prepare_all encode device_id now session batch_id 0 inbound)
        (ingest session batch_id works encode device_id now table inbound) result
        (ingest-Outcome session batch_id table works encode device_id now inbound) h in
    (total ∙ length-prepare_all encode device_id now session batch_id 0 inbound, grown)

-- A batch that fails, by its length or in the database, stores none of its events.
pub ingest_failed :
    ⦃u : Unicode⦄
    → ⦃f : Formats⦄
    → (session : Option (Uuid × Uuid)) (batch_id : Uuid) (works : Bool)
      (encode : Metadata → Option String) (device_id : Uuid) (now : Time) (table : List Row)
      (inbound : List Inbound) (e : Failure)
    → (ingest session batch_id works encode device_id now table inbound).1 ≡ inl e
    → (ingest session batch_id works encode device_id now table inbound).0 ≡ table
ingest_failed ⦃u⦄ ⦃f⦄ session batch_id works encode device_id now table inbound e h =
    kept session batch_id table (prepare_all encode device_id now session batch_id 0 inbound)
      (ingest session batch_id works encode device_id now table inbound) e
      (ingest-Outcome session batch_id table works encode device_id now inbound) h
