-- ===== src/Audit/Appending.antt =====
-- Record keeps the stored chain intact, as it is read back, whichever database call fails.
use mathlib.Core.Path.{subst}
use netra.Prelude.{
  ℕ, ◌-◌, ◌*◌, ◌/◌, ◌%◌, String, eq_iff, if◌then◌else◌, ◌≡◌, refl, sym, ap, ◌∙◌, true, false, ◌||◌,
  Option, none, some, List, [], ◌∷◌, ◌++◌, ◌==ₛ◌, ℤ, pos, ◌+ℤ◌, ◌≤ℤ◌, leb_ℤ, arith, int_laws,
  leb→le, All, All-append, Bool-cases, inl, inr, if_true, if_false,
}
use netra.Risk.Model.{Time}
use netra.Audit.Chain.{
  Entry, Record, Canonical, or_else, canonical, canonical_bytes, ◌>>=◌, Encoding, Bytes, equal_hash,
  normalize, compute_hash, compare_hash, check, verify_from, verify_chain, verify_chain_from,
  out_of_order,
}
use netra.Audit.Store.{
  Table, Columns, Fault, Failure, nullable, deref, read_address, read_back, with_row, head_hash,
  stamp, hash_and_insert, append, record_entry,
}
use netra.Audit.Segments.{before_seq, first_error, verify_from-append, verify_from-cons}

pub equal_hash_refl : (xs : Bytes) → equal_hash xs xs ≡ true
unfolding equal_hash
equal_hash_refl [] = refl
equal_hash_refl (x ∷ xs) = ground (arith, equal_hash_refl xs)

-- The chain verifies, and every seq was drawn before the next one.
pub record IsIntact {J : Type 0} ⦃c : Encoding J⦄ (t : Table J) : Type 0 where
  pub verified : verify_chain t.rows ≡ none
  pub drawn : All (λ r. r.seq +ℤ pos 1 ≤ℤ t.next_seq) t.rows

before_next : (s n : ℤ) → s +ℤ pos 1 ≤ℤ n → leb_ℤ n s ≡ false
before_next s n h = elim (Bool-cases (leb_ℤ n s)) [
  | inl e ↦ absurd (omega (int_laws, leb→le _ _ e, h))
  | inr e ↦ e
]

module _ {J : Type 0} where
  drawn_upto :
      (n m : ℤ) (rows : List (Record J))
      → n ≤ℤ m
      → All (λ r. r.seq +ℤ pos 1 ≤ℤ n) rows
      → All (λ r. r.seq +ℤ pos 1 ≤ℤ m) rows
  drawn_upto n m [] le h = tt
  drawn_upto n m (r ∷ rest) le h = (omega (int_laws, h.0), drawn_upto n m rest le h.1)

  in_order :
      (n : ℤ) (before : Option ℤ) (rows : List (Record J))
      → out_of_order before n ≡ false
      → All (λ r. r.seq +ℤ pos 1 ≤ℤ n) rows
      → out_of_order (before_seq before rows) n ≡ false
  in_order n before [] o h = o
  in_order n before (r ∷ rest) o h = in_order n (some r.seq) rest (before_next r.seq n h.0) h.1

module _ {J : Type 0} ⦃s : Columns J⦄ where
  -- The row that an entry becomes.
  abbrev pub row_of : Table J → Entry J → Bytes → Record J
  row_of t e hash = record {
    seq = t.next_seq;
    entry = read_back e;
    prev_hash = head_hash [] t.rows;
    hash = hash;
  }

-- What the database must keep of an entry: the address as it is, and the details up to what their
-- JSON text shows, within whatever entry.
pub record IsKept {J : Type 0} ⦃c : Encoding J⦄ ⦃s : Columns J⦄ (e : Entry J) : Type 0 where
  pub address : read_address s.inet e.source_ip ≡ e.source_ip
  pub detail :
      (x : Canonical J)
      → c.marshal (record x { detail = s.jsonb (or_else e.detail c.empty) })
        ≡ c.marshal (record x { detail = or_else e.detail c.empty })

-- A TIMESTAMPTZ keeps whole microseconds.
abbrev pub KeepsMicroseconds : {J : Type 0} → Columns J → Type 0
KeepsMicroseconds s = (n : ℕ) → s.timestamptz (n * 1000) ≡ n * 1000

nullable_kept : (s : String) → deref (nullable s) ≡ s
nullable_kept s = elim (Bool-cases (s ==ₛ "")) [
  | inl e ↦ ap deref (if_true _ _ _ e) ∙ sym ((eq_iff s "").0 e)
  | inr e ↦ ap deref (if_false _ _ _ e)
]

truncated_kept : (n : ℕ) → (n - n % 1000) - (n - n % 1000) % 1000 ≡ n - n % 1000
truncated_kept n = omega arith

whole : (n : ℕ) → n - n % 1000 ≡ n / 1000 * 1000
whole n = omega arith

result_kept :
    (r : String)
    → (if (if r ==ₛ "" then "SUCCESS" else r) ==ₛ ""
        then "SUCCESS"
        else if r ==ₛ ""
        then "SUCCESS"
        else r)
      ≡ (if r ==ₛ "" then "SUCCESS" else r)
result_kept r = elim (Bool-cases (r ==ₛ "")) [ inl e ↦ rw (e) refl | inr e ↦ rw (e, e) refl ]

module _ {J : Type 0} ⦃c : Encoding J⦄ ⦃s : Columns J⦄ (micro : KeepsMicroseconds s) where
  -- Normalizing what is read back of a normalized entry changes its details alone.
  read_back-canonical :
      (e : Entry J)
      → IsKept e
      → canonical (read_back (normalize e))
        ≡ record (canonical (normalize e)) { detail = s.jsonb (or_else e.detail c.empty) }
  unfolding canonical normalize read_back
  read_back-canonical e kept =
      let time : s.timestamptz (e.at - e.at % 1000) ≡ e.at - e.at % 1000 =
        ap s.timestamptz (whole e.at) ∙ micro (e.at / 1000) ∙ sym (whole e.at) in
      rw
        (
          time,
          nullable_kept e.actor_id,
          nullable_kept e.target_type,
          nullable_kept e.target_id,
          nullable_kept e.request_id,
          kept.address,
        )
        refl

  -- The hash of what is read back is the hash that was stored.
  read_back-compute_hash :
      (prev : Bytes) (e : Entry J)
      → IsKept e
      → compute_hash prev (read_back (normalize e)) ≡ compute_hash prev (normalize e)
  unfolding compute_hash canonical_bytes canonical normalize
  read_back-compute_hash prev e kept =
      ap (λ body. body >>= (λ bytes. some (c.sha256 (prev ++ bytes))))
        (ap c.marshal (read_back-canonical e kept) ∙ kept.detail (canonical (normalize e)))

-- An entry whose hash survives being stored.
module _ {J : Type 0} ⦃c : Encoding J⦄ ⦃s : Columns J⦄ (t : Table J) (e : Entry J)
    (survives : (prev : Bytes) → compute_hash prev (read_back e) ≡ compute_hash prev e) where
  row-accepted :
      (before : Option ℤ) (hash : Bytes)
      → out_of_order before t.next_seq ≡ false
      → compute_hash (head_hash [] t.rows) e ≡ some hash
      → check before (head_hash [] t.rows) (row_of t e hash) ≡ none
  unfolding check
  row-accepted before hash o h =
      if_false _ _ _ o
      ∙ if_true _ _ _ (equal_hash_refl (head_hash [] t.rows))
      ∙ ap (compare_hash t.next_seq hash) (survives (head_hash [] t.rows) ∙ h)
      ∙ if_true _ _ _ (equal_hash_refl hash)

  row-verified :
      (before : Option ℤ) (hash : Bytes)
      → out_of_order before t.next_seq ≡ false
      → compute_hash (head_hash [] t.rows) e ≡ some hash
      → verify_from before (head_hash [] t.rows) (row_of t e hash ∷ []) ≡ none
  unfolding verify_from
  row-verified before hash o h =
      verify_from-cons before (head_hash [] t.rows) (row_of t e hash) []
        (row-accepted before hash o h)

  -- What a transaction leaves: the old rows with an error, or one more row, chained to them.
  pub data Appended : Table J × Option Failure → Type 0 where
    kept :
        {t' : Table J}
        → (failure : Failure) → t'.rows ≡ t.rows
        → t.next_seq ≤ℤ t'.next_seq
        → Appended (t', some failure)
    added :
        (hash : Bytes)
        → compute_hash (head_hash [] t.rows) e ≡ some hash
        → (answer : Option Failure) → Appended (with_row t e (head_hash [] t.rows) hash, answer)

  hash_and_insert-Appended :
      (fault : Fault) (o : Option Bytes)
      → compute_hash (head_hash [] t.rows) e ≡ o
      → Appended (hash_and_insert fault t e (head_hash [] t.rows) o)
  unfolding hash_and_insert
  hash_and_insert-Appended fault none h = kept Failure.encode refl (omega arith)
  hash_and_insert-Appended Fault.insert (some hash) h = kept Failure.database refl (omega int_laws)
  hash_and_insert-Appended Fault.commit (some hash) h = kept Failure.database refl (omega int_laws)
  hash_and_insert-Appended Fault.answer (some hash) h = added hash h (some Failure.database)
  hash_and_insert-Appended _ (some hash) h = added hash h none

  append-Appended : (fault : Fault) → Appended (append fault t e)
  unfolding append
  append-Appended Fault.begin = kept Failure.database refl (omega arith)
  append-Appended Fault.lock = kept Failure.database refl (omega arith)
  append-Appended Fault.read_head = kept Failure.database refl (omega arith)
  append-Appended Fault.no_fault = hash_and_insert-Appended Fault.no_fault _ refl
  append-Appended Fault.insert = hash_and_insert-Appended Fault.insert _ refl
  append-Appended Fault.commit = hash_and_insert-Appended Fault.commit _ refl
  append-Appended Fault.answer = hash_and_insert-Appended Fault.answer _ refl

  appended-verified :
      (hash : Bytes)
      → compute_hash (head_hash [] t.rows) e ≡ some hash
      → IsIntact t
      → verify_chain (t.rows ++ row_of t e hash ∷ []) ≡ none
  unfolding verify_chain verify_chain_from
  appended-verified hash computed h =
      verify_from-append none [] t.rows (row_of t e hash ∷ [])
      ∙ ap
          (λ x.
            first_error x
              (verify_from (before_seq none t.rows) (head_hash [] t.rows) (row_of t e hash ∷ [])))
          h.verified
      ∙ row-verified (before_seq none t.rows) hash (in_order t.next_seq none t.rows refl h.drawn)
          computed

  Appended-IsIntact : (x : Table J × Option Failure) → Appended x → IsIntact t → IsIntact x.0
  Appended-IsIntact x (added hash computed answer) h = record {
    verified = appended-verified hash computed h;
    drawn =
        All-append _ t.rows _
          (drawn_upto t.next_seq (t.next_seq +ℤ pos 1) t.rows (omega int_laws) h.drawn)
          (omega int_laws, tt);
  }
  Appended-IsIntact x (kept failure same later) h = record {
    verified = rw same h.verified;
    drawn = rw same (drawn_upto t.next_seq x.0.next_seq t.rows later h.drawn);
  }

module _ {J : Type 0} ⦃c : Encoding J⦄ ⦃s : Columns J⦄ (micro : KeepsMicroseconds s) (fault : Fault)
    (now : Time) (t : Table J) (entry : Entry J) (keeps : IsKept entry) where
  -- The entry as it is hashed and stored.
  abbrev stored : Entry J
  stored = normalize (stamp now entry)

  stamp-IsKept : IsKept (stamp now entry)
  stamp-IsKept = record { address = keeps.address; detail = keeps.detail }

  survives : (prev : Bytes) → compute_hash prev (read_back stored) ≡ compute_hash prev stored
  survives prev = read_back-compute_hash micro prev (stamp now entry) stamp-IsKept

  -- Where the database keeps whole microseconds, the entry's address and what its details show as
  -- JSON, recording the entry keeps the table intact, whichever database call fails, if one does:
  -- the chain as it is read back verifies, and every seq is below the next one to be drawn.
  pub record_entry-IsIntact : IsIntact t → IsIntact (record_entry fault now t entry).0
  unfolding record_entry
  record_entry-IsIntact h = elim (Bool-cases (stored.action ==ₛ "" || stored.actor_type ==ₛ "")) [
    | inl e ↦ subst (λ (x : Table J × Option Failure). IsIntact x.0) (sym (if_true _ _ _ e)) h
    | inr e ↦
        subst (λ (x : Table J × Option Failure). IsIntact x.0) (sym (if_false _ _ _ e))
          (Appended-IsIntact t stored survives (append fault t stored)
            (append-Appended t stored survives fault) h)
  ]
