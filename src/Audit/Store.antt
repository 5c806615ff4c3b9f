-- ===== src/Audit/Store.antt =====
-- backend/internal/audit/store.go: the table audit_logs and the operations on it.
use mathlib.Core.Option.{map}
use netra.Prelude.{
  ℕ, String, zero, suc, Bool, true, false, ◌||◌, Option, none, some, List, [], ◌∷◌, ◌++◌, ◌==◌,
  ◌==ₛ◌, ℤ, pos, ltb_ℤ, take, select, if◌then◌else◌, ◌+ℤ◌,
}
use netra.Risk.Model.{Time}
use netra.Audit.Chain.{
  Entry, Record, Encoding, ChainError, Bytes, normalize, compute_hash, verify_chain_from,
}

-- The rows in ascending order of seq, and the next value of its identity column.
pub record Table (J : Type 0) : Type 0 where
  pub rows : List (Record J)
  pub next_seq : ℤ

-- What a SELECT reads of a value that an INSERT wrote, for the columns of the types TIMESTAMPTZ, INET
-- (which is read through host) and JSONB.
pub record Columns (J : Type 0) : Type 0 where
  pub timestamptz : Time → Time
  pub inet : String → String
  pub jsonb : J → J

-- Which database call of `Record` fails, if one does. `commit`: the server rolls back; `answer`: it
-- commits, and its answer is lost.
pub data Fault : Type 0 where
  no_fault begin lock read_head insert commit answer : Fault

pub data Failure : Type 0 where
  not_permitted database encode : Failure

-- The hash of the last row; no row leaves prevHash nil.
abbrev pub head_hash : {J : Type 0} → Bytes → List (Record J) → Bytes
head_hash prev [] = prev
head_hash prev (r ∷ rest) = head_hash r.hash rest

abbrev pub next : {J : Type 0} → Table J → Table J
next t = record t { next_seq = t.next_seq +ℤ pos 1 }

abbrev pub nullable : String → Option String
nullable s = if s ==ₛ "" then none else some s

abbrev pub deref : Option String → String
deref none = ""
deref (some s) = s

abbrev pub read_address : (String → String) → String → String
read_address inet ip = deref (map inet (nullable ip))

-- An entry as `List` reads it back.
module _ {J : Type 0} ⦃s : Columns J⦄ where
  unfoldable pub read_back : Entry J → Entry J
  read_back e = record e {
    at = s.timestamptz e.at;
    actor_id = deref (nullable e.actor_id);
    target_type = deref (nullable e.target_type);
    target_id = deref (nullable e.target_id);
    request_id = deref (nullable e.request_id);
    source_ip = read_address s.inet e.source_ip;
    detail = map s.jsonb e.detail;
  }

-- The default for a limit outside 1..1000.
abbrev pub clamp_limit : ℤ → ℕ
clamp_limit (pos n) = if n == 0 then 100 else if ltb_ℤ (pos 1000) (pos n) then 100 else n
clamp_limit n = 100

abbrev pub page_size : ℤ
page_size = pos 500

-- A page's error ends the loop.
abbrev pub report : Option ChainError → Option (Option ChainError) → Option (Option ChainError)
report none rest = rest
report (some error) rest = some (some error)

module _ {J : Type 0} where
  -- `List`, where the query succeeds.
  unfoldable pub list : List (Record J) → ℤ → ℤ → List (Record J)
  list rows after limit = take (clamp_limit limit) (select (λ r. ltb_ℤ after r.seq) rows)

  abbrev pub last_seq : ℤ → List (Record J) → ℤ
  last_seq after [] = after
  last_seq after (r ∷ rest) = last_seq r.seq rest

  abbrev pub is_empty : List (Record J) → Bool
  is_empty [] = true
  is_empty (r ∷ rest) = false

module _ {J : Type 0} where
  -- A zero time is replaced by the clock's reading.
  abbrev pub stamp : Time → Entry J → Entry J
  stamp now e = record e { at = if e.at == 0 then now else e.at }

module _ {J : Type 0} ⦃c : Encoding J⦄ ⦃s : Columns J⦄ where
  -- The table with one more row, which is kept as it is read back.
  abbrev pub with_row : Table J → Entry J → Bytes → Bytes → Table J
  with_row t e prev hash = record (next t) {
    rows =
        t.rows
        ++ record { seq = t.next_seq; entry = read_back e; prev_hash = prev; hash = hash } ∷ [];
  }

  -- INSERT and Commit. A failed insert or commit leaves the rows, and has drawn a seq.
  insert_row : Fault → Table J → Entry J → Bytes → Bytes → Table J × Option Failure
  insert_row Fault.insert t e prev hash = (next t, some Failure.database)
  insert_row Fault.commit t e prev hash = (next t, some Failure.database)
  insert_row Fault.answer t e prev hash = (with_row t e prev hash, some Failure.database)
  insert_row fault t e prev hash = (with_row t e prev hash, none)

  unfoldable pub hash_and_insert :
      Fault → Table J → Entry J → Bytes → Option Bytes → Table J × Option Failure
  unfolding insert_row
  hash_and_insert fault t e prev none = (t, some Failure.encode)
  hash_and_insert fault t e prev (some hash) = insert_row fault t e prev hash

  -- The transaction.
  unfoldable pub append : Fault → Table J → Entry J → Table J × Option Failure
  unfolding hash_and_insert
  append Fault.begin t e = (t, some Failure.database)
  append Fault.lock t e = (t, some Failure.database)
  append Fault.read_head t e = (t, some Failure.database)
  append fault t e =
      let prev = head_hash [] t.rows in hash_and_insert fault t e prev (compute_hash prev e)

  -- `Record`. Failures: none where it returns nil.
  unfoldable pub record_entry : Fault → Time → Table J → Entry J → Table J × Option Failure
  unfolding append
  record_entry fault now t entry =
      let e = normalize (stamp now entry) in
      if e.action ==ₛ "" || e.actor_type ==ₛ ""
      then (t, some Failure.not_permitted)
      else append fault t e

module _ {J : Type 0} ⦃c : Encoding J⦄ where
  -- The loop of `Verify` over a table that does not change meanwhile, on fuel: the outer none means
  -- that the fuel ran out, the inner one that the chain is intact.
  unfoldable pub verify_pages : ℕ → List (Record J) → ℤ → Bytes → Option (Option ChainError)
  verify_pages zero rows after prev = none
  verify_pages (suc fuel) rows after prev =
      let page = list rows after page_size in
      let rest = verify_pages fuel rows (last_seq after page) (head_hash prev page) in
      if is_empty page then some none else report (verify_chain_from prev page) rest

  unfoldable pub verify : ℕ → Table J → Option (Option ChainError)
  verify fuel t = verify_pages fuel t.rows (pos 0) []
