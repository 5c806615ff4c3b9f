-- ===== src/Session/Challenge.antt =====
-- backend/internal/session/attestation.go, and IssueNonce, PruneNonces and verifyAttestation of store.go.
use Prim.Native.Char.{Char, code}
use Prim.Native.String.{◌++◌ as ◌++ₛ◌}
use netra.Prelude.{
  ℕ, ◌+◌, ◌*◌, String, len, Bool, false, ◌&&◌, ◌||◌, not, Option, none, some, List, [], ◌∷◌, ◌++◌,
  length, select, ltb, leb, ◌==◌, ◌==ₛ◌, if◌then◌else◌,
}
use netra.Risk.Model.{Time, Uuid}
use netra.Audit.Chain.{Bytes}
use netra.Device.Store.{update, is_none}
use netra.Device.Signing.{Crypto, every_rune}

abbrev pub nonce_ttl : ℕ
nonce_ttl = 2 * 60 * 1000000000

abbrev nonce_length : ℕ
nonce_length = 32

-- The rows of session_nonces.
pub record Challenge : Type 0 where
  pub nonce : String
  pub user_id : Uuid
  pub expires_at : Time
  pub used_at : Option Time
  pub session_id : Option Uuid

-- SELECT ... WHERE nonce = $1, the column being the primary key.
unfoldable pub find_challenge : String → List Challenge → Option Challenge
find_challenge nonce [] = none
find_challenge nonce (c ∷ cs) =
    let rest = find_challenge nonce cs in if c.nonce ==ₛ nonce then some c else rest

unfoldable pub attestation_string : String → String → String
attestation_string nonce subject = "NETRA-attest-v1\n" ++ₛ nonce ++ₛ "\n" ++ₛ subject

abbrev is_lower_hex : Char → Bool
is_lower_hex r = (leb 48 (code r) && leb (code r) 57) || (leb 97 (code r) && leb (code r) 102)

-- `ValidateNonceFormat`: true where it returns nil.
unfoldable pub validate_nonce_format : String → Bool
validate_nonce_format nonce = len nonce == nonce_length * 2 && every_rune is_lower_hex nonce

abbrev pub unused : String → Uuid → Time → Challenge
unused nonce user_id expires_at = record {
  nonce = nonce;
  user_id = user_id;
  expires_at = expires_at;
  used_at = none;
  session_id = none;
}

module _ ⦃c : Crypto⦄ where
  -- `GenerateNonce`, for the bytes that are drawn; none where none can be.
  abbrev generate_nonce : Option Bytes → Option String
  generate_nonce none = none
  generate_nonce (some raw) = some (c.hex raw)

  -- The INSERT breaks the primary key where the nonce is there already.
  abbrev insert_challenge :
      List Challenge → Uuid → Time → Option String → List Challenge × Option (String × Time)
  insert_challenge table user_id now none = (table, none)
  insert_challenge table user_id now (some nonce) =
      if is_none (find_challenge nonce table)
      then (table ++ unused nonce user_id (now + nonce_ttl) ∷ [], some (nonce, now + nonce_ttl))
      else (table, none)

  -- `IssueNonce`; `works` says that the INSERT reaches the table, and none is an error.
  unfoldable pub issue_nonce :
      Bool → List Challenge → Uuid → Time → Option Bytes → List Challenge × Option (String × Time)
  issue_nonce works table user_id now raw =
      if works then insert_challenge table user_id now (generate_nonce raw) else (table, none)

  abbrev answers : Bytes → String → String → Option Bytes → Bool
  answers public_key nonce subject none = false
  answers public_key nonce subject (some raw) =
      length raw == 64 && c.verify public_key (c.utf8 (attestation_string nonce subject)) raw

  -- `verifyAttestation`: true where it returns nil.
  unfoldable pub verify_attestation : Bytes → String → String → String → Bool
  verify_attestation public_key nonce subject signature =
      length public_key == 32 && answers public_key nonce subject (c.base64 signature)

-- UPDATE session_nonces ... WHERE nonce = $2
unfoldable pub consume_challenge : List Challenge → Uuid → String → Time → List Challenge
consume_challenge table session_id nonce now =
    update (λ c. c.nonce ==ₛ nonce)
      (λ c. record c { used_at = some now; session_id = some session_id }) table

-- `PruneNonces`
unfoldable pub prune_challenges : List Challenge → Time → List Challenge
prune_challenges table before = select (λ c. not (ltb c.expires_at before)) table
