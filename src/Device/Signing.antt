-- ===== src/Device/Signing.antt =====
-- backend/internal/device/signing.go: the signed text of a request, its verification, and the tests
-- on the clock and on nonces. A time is a number of nanoseconds since Go's zero time, here also a
-- negative one; a Duration is 64 bits wide.
use Prim.Native.Char.{Char, code}
use Prim.Native.String.{◌++◌ as ◌++ₛ◌}
use netra.Prelude.{
  ℕ, ◌+◌, ◌-◌, ◌*◌, ◌^◌, String, len, Bool, true, false, ◌&&◌, ◌||◌, not, Option, none, some, ltb,
  leb, ◌==◌, ℤ, pos, negsuc, sub_ℕ, ◌+ℤ◌, ◌-ℤ◌, ◌*ℤ◌, ltb_ℤ, leb_ℤ, Unicode, to_upper, length,
  if◌then◌else◌,
}
use netra.Prelude.Format.{decimal}
use netra.Audit.Chain.{Bytes}

-- What the code takes from crypto/ed25519, crypto/sha256, encoding/base64 and encoding/hex: `utf8`
-- is the conversion of a string to bytes.
pub record Crypto : Type 0 where
  pub verify : Bytes → Bytes → Bytes → Bool
  pub sha256 : Bytes → Bytes
  pub base64 : String → Option Bytes
  pub hex : Bytes → String
  pub utf8 : String → Bytes

pub record SigningInput : Type 0 where
  pub method : String
  pub path : String
  -- seconds since 1970
  pub timestamp : ℤ
  pub nonce : String
  pub body : Bytes

module _ ⦃u : Unicode⦄ ⦃c : Crypto⦄ where
  unfoldable pub canonical_string : SigningInput → String
  canonical_string input =
      "NETRA-v1\n"
      ++ₛ to_upper input.method
      ++ₛ "\n"
      ++ₛ input.path
      ++ₛ "\n"
      ++ₛ decimal input.timestamp
      ++ₛ "\n"
      ++ₛ input.nonce
      ++ₛ "\n"
      ++ₛ c.hex (c.sha256 input.body)

  abbrev checks : Bytes → SigningInput → Option Bytes → Bool
  checks public_key input none = false
  checks public_key input (some raw) =
      length raw == 64 && c.verify public_key (c.utf8 (canonical_string input)) raw

  -- `VerifySignature`: true where it returns nil.
  unfoldable pub verify_signature : Bytes → SigningInput → String → Bool
  verify_signature public_key input signature =
      length public_key == 32 && checks public_key input (c.base64 signature)

-- `Sign`, for what ed25519.Sign and base64 encoding give for a key.
unfoldable pub sign_input :
    ⦃u : Unicode⦄ → ⦃c : Crypto⦄ → (Bytes → Bytes) → (Bytes → String) → SigningInput → String
sign_input ⦃u⦄ ⦃c⦄ sign encode input = encode (sign (c.utf8 (canonical_string input)))

-- The largest Duration; the smallest one is one below its negative.
abbrev pub max_duration : ℕ
max_duration = 2 ^ 63 - 1

-- The difference of two times, which stops at the ends of Duration.
unfoldable pub sub_time : ℤ → ℤ → ℤ
sub_time t s =
    if ltb_ℤ (pos max_duration) (t -ℤ s)
    then pos max_duration
    else if ltb_ℤ (t -ℤ s) (negsuc max_duration)
    then negsuc max_duration
    else t -ℤ s

-- -d in 64 bits: the smallest Duration is its own negative.
unfoldable pub negate : ℤ → ℤ
negate d = if leb_ℤ d (negsuc max_duration) then d else pos 0 -ℤ d

abbrev pub max_clock_skew : ℕ
max_clock_skew = 5 * 60 * 1000000000

unfoldable pub drift : ℤ → ℤ → ℤ
drift timestamp now = let d = sub_time now timestamp in if ltb_ℤ d (pos 0) then negate d else d

-- `CheckClockSkew`: true where it returns nil.
unfoldable pub check_clock_skew : ℤ → ℤ → Bool
unfolding drift
check_clock_skew timestamp now = not (ltb_ℤ (pos max_clock_skew) (drift timestamp now))

abbrev is_nonce_rune : Char → Bool
is_nonce_rune r =
    (leb 48 (code r) && leb (code r) 57)
    || (leb 97 (code r) && leb (code r) 102)
    || (leb 65 (code r) && leb (code r) 70)
    || code r == 45

abbrev pub every_rune : (Char → Bool) → String → Bool
every_rune p String.[] = true
every_rune p (String.◌∷◌ r s) = p r && every_rune p s

-- `ValidateNonce`: true where it returns nil.
unfoldable pub validate_nonce : String → Bool
validate_nonce nonce =
    not (ltb (len nonce) 16) && not (ltb 128 (len nonce)) && every_rune is_nonce_rune nonce

-- strconv.ParseInt in base 10, 64 bits wide: a sign, if there is one, and digits.
abbrev pub digit : Char → Option ℕ
digit r = if leb 48 (code r) && leb (code r) 57 then some (code r - 48) else none

unfoldable pub parse_digits : ℕ → String → Option ℕ
parse_digits n String.[] = some n
parse_digits n (String.◌∷◌ r s) = elim (digit r) [
  | none ↦ none
  | some k ↦ parse_digits (n * 10 + k) s
]

unfoldable pub parse_natural : String → Option ℕ
parse_natural String.[] = none
parse_natural (String.◌∷◌ r s) = parse_digits 0 (String.◌∷◌ r s)

abbrev pub positive : Option ℕ → Option ℤ
positive none = none
positive (some n) = if ltb n (2 ^ 63) then some (pos n) else none

abbrev pub negative : Option ℕ → Option ℤ
negative none = none
negative (some n) = if leb n (2 ^ 63) then some (sub_ℕ 0 n) else none

unfoldable pub parse_int : String → Option ℤ
parse_int String.[] = none
parse_int (String.◌∷◌ r s) =
    if code r == 45
    then negative (parse_natural s)
    else if code r == 43
    then positive (parse_natural s)
    else positive (parse_natural (String.◌∷◌ r s))

-- time.Unix(seconds, 0): the seconds since Go's zero time are 64 bits wide and wrap around.
abbrev pub unix_to_internal : ℕ
unix_to_internal = 62135596800

abbrev pub wrap_64 : ℤ → ℤ
wrap_64 n = if leb_ℤ (pos (2 ^ 63)) n then n -ℤ pos (2 ^ 64) else n

unfoldable pub from_unix : ℤ → ℤ
from_unix seconds = wrap_64 (seconds +ℤ pos unix_to_internal) *ℤ pos 1000000000
