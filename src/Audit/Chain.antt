-- ===== src/Audit/Chain.antt =====
-- backend/internal/audit/audit.go: entries, their canonical bytes, hashes and the verification of a
-- chain. A nil slice and an empty one are both []; an error of json.Marshal is none.
use netra.Prelude.{
  ℕ, ◌-◌, ◌%◌, String, Bool, true, false, ◌&&◌, Option, none, some, List, [], ◌∷◌, ◌++◌, ◌==◌,
  ◌==ₛ◌, ℤ, leb_ℤ, if◌then◌else◌,
}
use netra.Risk.Model.{Time}

abbrev pub Bytes : Type 0
Bytes = List ℕ

-- J stands for the values of a map[string]any.
pub record Entry (J : Type 0) : Type 0 where
  pub at : Time
  pub actor_type : String
  pub actor_id : String
  pub action : String
  pub target_type : String
  pub target_id : String
  pub result : String
  pub request_id : String
  pub source_ip : String
  pub detail : Option J

-- A stored entry. The fields of the embedded Entry are read through `entry`.
pub record Record (J : Type 0) : Type 0 where
  pub seq : ℤ
  pub entry : Entry J
  pub prev_hash : Bytes
  pub hash : Bytes

pub record Canonical (J : Type 0) : Type 0 where
  pub at : String
  pub actor_type : String
  pub actor_id : String
  pub action : String
  pub target_type : String
  pub target_id : String
  pub result : String
  pub request_id : String
  pub source_ip : String
  pub detail : J

-- What the chain takes from the packages encoding/json, time and crypto/sha256.
pub record Encoding (J : Type 0) : Type 0 where
  pub empty : J
  pub format_time : Time → String
  pub marshal : Canonical J → Option Bytes
  pub sha256 : Bytes → Bytes

pub data Reason : Type 0 where
  order previous encoding contents : Reason

pub record ChainError : Type 0 where
  pub seq : ℤ
  pub reason : Reason

abbrev pub or_else : {J : Type 0} → Option J → J → J
or_else none d = d
or_else (some j) d = j

-- `equalHash`
unfoldable pub equal_hash : Bytes → Bytes → Bool
equal_hash [] [] = true
equal_hash [] (y ∷ ys) = false
equal_hash (x ∷ xs) [] = false
equal_hash (x ∷ xs) (y ∷ ys) = x == y && equal_hash xs ys

-- The first index of the loop makes no order check: there is no seq before it.
abbrev pub out_of_order : Option ℤ → ℤ → Bool
out_of_order none seq = false
out_of_order (some before) seq = leb_ℤ seq before

infixl 5 ◌>>=◌
abbrev pub ◌>>=◌ {ℓ κ} : {A : Type ℓ} {B : Type κ} → Option A → (A → Option B) → Option B
none >>= f = none
some a >>= f = f a

unfoldable pub compare_hash : ℤ → Bytes → Option Bytes → Option ChainError
compare_hash seq hash none = some (record { seq = seq; reason = Reason.encoding })
compare_hash seq hash (some want) =
    if equal_hash hash want then none else some (record { seq = seq; reason = Reason.contents })

module _ {J : Type 0} ⦃c : Encoding J⦄ where
  unfoldable pub normalize : Entry J → Entry J
  normalize e = record e {
    at = e.at - e.at % 1000;
    detail = some (or_else e.detail c.empty);
    result = if e.result ==ₛ "" then "SUCCESS" else e.result;
  }

  unfoldable pub canonical : Entry J → Canonical J
  unfolding normalize
  canonical e =
      let n = normalize e in
      record {
        at = c.format_time n.at;
        actor_type = n.actor_type;
        actor_id = n.actor_id;
        action = n.action;
        target_type = n.target_type;
        target_id = n.target_id;
        result = n.result;
        request_id = n.request_id;
        source_ip = n.source_ip;
        detail = or_else n.detail c.empty;
      }

  unfoldable pub canonical_bytes : Entry J → Option Bytes
  canonical_bytes e = c.marshal (canonical e)

  unfoldable pub compute_hash : Bytes → Entry J → Option Bytes
  compute_hash prev e = do body ← canonical_bytes e; some (c.sha256 (prev ++ body))

  -- The body of the loop: none where the record is accepted.
  unfoldable pub check : Option ℤ → Bytes → Record J → Option ChainError
  unfolding compare_hash
  check before prev r =
      if out_of_order before r.seq
      then some (record { seq = r.seq; reason = Reason.order })
      else if equal_hash r.prev_hash prev
      then compare_hash r.seq r.hash (compute_hash prev r.entry)
      else some (record { seq = r.seq; reason = Reason.previous })

  -- The loop, from the seq of the record before, if there is one, and its hash.
  unfoldable pub verify_from : Option ℤ → Bytes → List (Record J) → Option ChainError
  verify_from before prev [] = none
  verify_from before prev (r ∷ rest) = elim (check before prev r) [
    | some error ↦ some error
    | none ↦ verify_from (some r.seq) r.hash rest
  ]

  unfoldable pub verify_chain_from : Bytes → List (Record J) → Option ChainError
  verify_chain_from prev records = verify_from none prev records

  unfoldable pub verify_chain : List (Record J) → Option ChainError
  verify_chain records = verify_chain_from [] records
