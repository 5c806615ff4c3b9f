-- ===== src/Device/Decimal.antt =====
-- backend/internal/device/signing.go: the timestamp is printed in the signed text and read back by strconv.ParseInt.
use Prim.Native.Char.{code}
use netra.Prelude.{
  ℕ, zero, suc, ◌+◌, ◌-◌, ◌*◌, ◌%◌, ◌/◌, ◌^◌, ◌<◌, ◌≡◌, refl, ap, ◌∙◌, String, Bool, true, false,
  ◌&&◌, none, some, leb, leb_ℤ, ltb_ℤ, ◌==◌, ℤ, pos, negsuc, Bool-cases, inl, inr, if_true,
  if_false, arith, if◌then◌else◌,
}
use netra.Prelude.Format.{digit_char, decimal_before, decimal}
use netra.Device.Signing.{digit, parse_digits, parse_natural, parse_int, positive, negative}

below_ten : (v : ℕ) → v % 10 < 10
below_ten v = omega arith

digit-digit_char : (d : ℕ) → d < 10 → digit (digit_char d) ≡ some d
digit-digit_char zero h = refl
digit-digit_char (suc zero) h = refl
digit-digit_char (suc (suc zero)) h = refl
digit-digit_char (suc (suc (suc zero))) h = refl
digit-digit_char (suc (suc (suc (suc zero)))) h = refl
digit-digit_char (suc (suc (suc (suc (suc zero))))) h = refl
digit-digit_char (suc (suc (suc (suc (suc (suc zero)))))) h = refl
digit-digit_char (suc (suc (suc (suc (suc (suc (suc zero))))))) h = refl
digit-digit_char (suc (suc (suc (suc (suc (suc (suc (suc zero)))))))) h = refl
digit-digit_char (suc (suc (suc (suc (suc (suc (suc (suc (suc zero))))))))) h = refl
digit-digit_char (suc (suc (suc (suc (suc (suc (suc (suc (suc (suc n)))))))))) h =
    absurd (omega (arith, h))

parse_digits-cons :
    (n d : ℕ) (text : String)
    → d < 10
    → parse_digits n (String.◌∷◌ (digit_char d) text) ≡ parse_digits (n * 10 + d) text
unfolding parse_digits
parse_digits-cons n d text h =
    ap (λ o. elim o [ none ↦ none | some k ↦ parse_digits (n * 10 + k) text ])
      (digit-digit_char d h)

parse_digits-decimal_before :
    (fuel v : ℕ) (text : String)
    → v < fuel
    → parse_digits 0 (decimal_before fuel v text) ≡ parse_digits v text
parse_digits-decimal_before zero v text h = absurd (omega (arith, h))
parse_digits-decimal_before (suc fuel) v text h = elim (Bool-cases (v / 10 == 0)) [
  | inl e ↦
      ap (parse_digits 0) (if_true _ _ _ e)
      ∙ parse_digits-cons 0 (v % 10) text (below_ten v)
      ∙ ap (λ n. parse_digits n text) (ground arith)
  | inr e ↦
      ap (parse_digits 0) (if_false _ _ _ e)
      ∙ parse_digits-decimal_before fuel (v / 10) (String.◌∷◌ (digit_char (v % 10)) text)
          (ground arith)
      ∙ parse_digits-cons (v / 10) (v % 10) text (below_ten v)
      ∙ ap (λ n. parse_digits n text) (ground arith)
]

-- The first character is a digit.
abbrev is_numeral : String → Bool
is_numeral String.[] = false
is_numeral (String.◌∷◌ r s) = leb 48 (code r) && leb (code r) 57

is_numeral-cons :
    (d : ℕ) (text : String) → d < 10 → is_numeral (String.◌∷◌ (digit_char d) text) ≡ true
is_numeral-cons d text h = taken _ _ d (digit-digit_char d h)
  where
    taken : (b : Bool) (x y : ℕ) → (if b then some x else none) ≡ some y → b ≡ true
    taken true x y h = refl
    taken false x y h = cc

decimal_before-is_numeral :
    (fuel v : ℕ) (text : String) → is_numeral (decimal_before (suc fuel) v text) ≡ true
decimal_before-is_numeral zero v text = elim (Bool-cases (v / 10 == 0)) [
  | inl e ↦ ap is_numeral (if_true _ _ _ e) ∙ is_numeral-cons (v % 10) text (below_ten v)
  | inr e ↦ ap is_numeral (if_false _ _ _ e) ∙ is_numeral-cons (v % 10) text (below_ten v)
]
decimal_before-is_numeral (suc fuel) v text = elim (Bool-cases (v / 10 == 0)) [
  | inl e ↦ ap is_numeral (if_true _ _ _ e) ∙ is_numeral-cons (v % 10) text (below_ten v)
  | inr e ↦ ap is_numeral (if_false _ _ _ e) ∙ decimal_before-is_numeral fuel (v / 10) _
]

parse_natural-is_numeral : (s : String) → is_numeral s ≡ true → parse_natural s ≡ parse_digits 0 s
unfolding parse_natural
parse_natural-is_numeral String.[] h = cc
parse_natural-is_numeral (String.◌∷◌ r s) h = refl

parse_int-is_numeral : (s : String) → is_numeral s ≡ true → parse_int s ≡ positive (parse_natural s)
unfolding parse_int
parse_int-is_numeral String.[] h = cc
parse_int-is_numeral (String.◌∷◌ r s) h = ground arith

natural_decimal : (v : ℕ) → parse_natural (decimal_before (suc v) v "") ≡ some v
unfolding parse_digits
natural_decimal v =
    parse_natural-is_numeral (decimal_before (suc v) v "") (decimal_before-is_numeral v v "")
    ∙ parse_digits-decimal_before (suc v) v "" (omega arith)

-- Reading back the decimal digits of an int64 gives the number: for every one, negative ones and
-- the smallest included.
pub parse_int-decimal :
    (n : ℤ)
    → leb_ℤ (negsuc (2 ^ 63 - 1)) n ≡ true
    → ltb_ℤ n (pos (2 ^ 63)) ≡ true
    → parse_int (decimal n) ≡ some n
unfolding decimal parse_int
parse_int-decimal (pos v) low high =
    parse_int-is_numeral (decimal_before (suc v) v "") (decimal_before-is_numeral v v "")
    ∙ ap positive (natural_decimal v)
    ∙ ground arith
parse_int-decimal (negsuc v) low high = ap negative (natural_decimal (suc v)) ∙ ground arith
