-- ===== src/Tests/Audit.antt =====
-- Audit logs of backend/internal/audit, with a digest of 32 equal bytes.
use netra.Prelude.{
  ◌*◌, ◌/◌, ◌%◌, ◌-◌, ◌^◌, ltb, if◌then◌else◌, ℕ, zero, suc, ◌+◌, ◌≡◌, ◌⊎◌, refl, none, some, List,
  [], ◌∷◌, pos, length, arith, int_laws,
}
use netra.Audit.Chain.{
  Entry, Reason, Record, Encoding, Bytes, verify_from, verify_chain, verify_chain_from, check,
  compare_hash, equal_hash, compute_hash, canonical_bytes, normalize, canonical,
}
use netra.Audit.Store.{Table, Columns, Fault, read_back, record_entry, verify}
use netra.Audit.Appending.{KeepsMicroseconds, IsKept, IsIntact, record_entry-IsIntact}
use netra.Audit.Tampering.{Collision, SameContents, verify_chain-commits}
use netra.Audit.Paging.{verify-pagewise}

-- The sum of the bytes, 32 times.
abbrev sum_bytes : Bytes → ℕ
sum_bytes [] = 0
sum_bytes (x ∷ xs) = x + sum_bytes xs

abbrev repeat : ℕ → ℕ → Bytes
repeat zero n = []
repeat (suc k) n = n ∷ repeat k n

abbrev thirty_two : ℕ
thirty_two = suc (
    suc (
      suc (
        suc (
          suc (
            suc (
              suc (
                suc (
                  suc (
                    suc (
                      suc (
                        suc (
                          suc (
                            suc (
                              suc (
                                suc (
                                  suc (
                                    suc (
                                      suc (
                                        suc (
                                          suc (
                                            suc (
                                              suc (
                                                suc (
                                                  suc (
                                                    suc (
                                                      suc (
                                                        suc (
                                                          suc (
                                                            suc (
                                                            suc
                                                            (suc zero)))))))))))))))))))))))))))))))

instance abbrev summing : Encoding Unit
summing = record {
  empty = tt;
  format_time = λ t. "";
  marshal = λ x. some (7 ∷ 9 ∷ []);
  sha256 = λ x. repeat thirty_two (sum_bytes x);
}

abbrev login : Entry Unit
login = record {
  at = 5000;
  actor_type = "user";
  actor_id = "u1";
  action = "LOGIN";
  target_type = "";
  target_id = "";
  result = "";
  request_id = "r1";
  source_ip = "";
  detail = none;
}

abbrev logged : Record Unit
logged = record { seq = pos 1; entry = login; prev_hash = []; hash = repeat thirty_two 16 }

abbrev one_row : Table Unit
one_row = record { rows = logged ∷ []; next_seq = pos 2 }

one_row-verifies : verify_chain one_row.rows ≡ none
unfolding verify_chain verify_chain_from verify_from check compare_hash equal_hash compute_hash
    canonical_bytes
one_row-verifies = refl

one_row-IsIntact : IsIntact one_row
one_row-IsIntact = record { verified = one_row-verifies; drawn = (omega int_laws, tt) }

length-repeat : (k n : ℕ) → length (repeat k n) ≡ k
length-repeat zero n = refl
length-repeat (suc k) n = ground (arith, length-repeat k n)

-- Times are cut to whole microseconds.
instance abbrev truncating : Columns Unit
truncating = record { timestamptz = λ t. t / 1000 * 1000; inet = λ ip. ip; jsonb = λ j. j }

truncating-KeepsMicroseconds : KeepsMicroseconds truncating
truncating-KeepsMicroseconds n = omega arith

logout : Entry Unit
logout = record login { at = 7042; action = "LOGOUT"; source_ip = "10.0.0.7" }

logout-IsKept : IsKept logout
unfolding logout
logout-IsKept = record { address = refl; detail = λ x. refl }

record_entry-IsIntact_example : IsIntact (record_entry Fault.no_fault 6000 one_row logout).0
record_entry-IsIntact_example =
    record_entry-IsIntact truncating-KeepsMicroseconds Fault.no_fault 6000 one_row logout
      logout-IsKept one_row-IsIntact

-- Details that are a number, which reads back as the closest even one from 2^53 on; the digest
-- shows it.
abbrev showing : Encoding ℕ
showing = record {
  empty = 0;
  format_time = λ t. "";
  marshal = λ x. some (x.detail ∷ []);
  sha256 = λ x. x;
}

abbrev float64 : Columns ℕ
float64 = record {
  timestamptz = λ t. t / 1000 * 1000;
  inet = λ ip. ip;
  jsonb = λ n. if ltb n (2 ^ 53) then n else n - n % 2;
}

-- An entry with the number 2^53 + 1 is recorded without an error and does not verify.
abbrev audit_read : Entry ℕ
audit_read = record {
  at = 5000;
  actor_type = "user";
  actor_id = "u1";
  action = "audit.read";
  target_type = "";
  target_id = "";
  result = "";
  request_id = "";
  source_ip = "";
  detail = some (2 ^ 53 + 1);
}

abbrev no_rows : Table ℕ
no_rows = record { rows = []; next_seq = pos 1 }

audit_read_recorded :
    (record_entry ⦃c = showing⦄ ⦃s = float64⦄ Fault.no_fault 6000 no_rows audit_read).1 ≡ none
unfolding record_entry compute_hash canonical_bytes normalize
audit_read_recorded = refl

audit_read_rejected :
    verify_chain ⦃c = showing⦄
      (record_entry ⦃c = showing⦄ ⦃s = float64⦄ Fault.no_fault 6000 no_rows audit_read).0.rows
    ≡ some (record { seq = pos 1; reason = Reason.contents })
unfolding record_entry verify_chain verify_chain_from verify_from check compare_hash equal_hash
    compute_hash canonical_bytes normalize canonical read_back
audit_read_rejected = refl

-- The same row under another seq, which the chain does not hash.
abbrev renumbered : List (Record Unit)
renumbered = record logged { seq = pos 9 } ∷ []

renumbered-verifies : verify_chain renumbered ≡ none
unfolding verify_chain verify_chain_from verify_from check compare_hash equal_hash compute_hash
    canonical_bytes
renumbered-verifies = refl

verify_chain-commits_example : SameContents one_row.rows renumbered ⊎ Collision summing
verify_chain-commits_example =
    verify_chain-commits (λ x. length-repeat thirty_two (sum_bytes x)) one_row.rows renumbered refl
      one_row-verifies renumbered-verifies refl

verify-pagewise_example : verify 2 one_row ≡ some (verify_chain one_row.rows)
verify-pagewise_example = verify-pagewise 2 one_row (refl, tt) (omega arith)
