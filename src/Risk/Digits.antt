-- ===== src/Risk/Digits.antt =====
-- backend/internal/risk/engine.go: the number formatting that factor details and explanations use.
use Prim.Native.String.{◌++◌}
use native.Mathlib.Nat.{pow-suc}
use netra.Prelude.{
  ℕ, zero, suc, ◌/◌, ◌%◌, ◌==◌, String, ◌≡◌, refl, Bool, true, false, Option, none, some,
  Bool-cases, inl, inr, ◌*◌, ◌<◌, ◌^◌, arith, ℤ, pos, negsuc, if◌then◌else◌,
}
use netra.Prelude.Format.{digit_char}
use netra.Prelude.Double.{Double}

-- The loop of `itoa`: `room` bytes of the buffer are free in front of `text`. A write in front of
-- the buffer panics, which is none.
fill : ℕ → ℕ → String → Option (ℕ × String)
fill zero v text = if v == 0 then some (0, text) else none
fill (suc room) v text =
    let rest = fill room (v / 10) (String.◌∷◌ (digit_char (v % 10)) text) in
    if v == 0 then some (suc room, text) else rest

-- The sign takes one more byte of the buffer.
put_sign : Bool → Option (ℕ × String) → Option String
put_sign negative none = none
put_sign false (some (room, text)) = some text
put_sign true (some (zero, text)) = none
put_sign true (some (suc room, text)) = some (String.◌∷◌ "-" text)

unfoldable pub itoa : ℤ → Option String
unfolding fill put_sign
itoa (pos v) = if v == 0 then some "0" else put_sign false (fill 12 v "")
itoa (negsuc v) = put_sign true (fill 12 (suc v) "")

infixl 5 ◌>>=◌
abbrev pub ◌>>=◌ {ℓ κ} : {A : Type ℓ} {B : Type κ} → Option A → (A → Option B) → Option B
none >>= f = none
some a >>= f = f a

module _ {W : Type 0} ⦃d : Double W⦄ where
  -- The first decimal of v, without its sign.
  first_decimal : W → ℤ
  first_decimal v =
      let frac = d.trunc (d.mul (d.sub v (d.of_int (d.trunc v))) (d.of_int (pos 10))) in
      elim frac [ pos n ↦ pos n | negsuc n ↦ pos (suc n) ]

  unfoldable pub ftoa : W → Option String
  unfolding first_decimal
  ftoa v = do whole ← itoa (d.trunc v); frac ← itoa (first_decimal v); some (whole ++ "." ++ frac)

  unfoldable pub format_z_score : W → Option String
  format_z_score z = do
    text ← ftoa z
    some ("access volume is " ++ text ++ " standard deviations above this user's norm")

unfoldable pub format_trust : ℤ → Option String
format_trust trust = do text ← itoa trust; some ("device trust is " ++ text ++ "/100")

shorter : (room v : ℕ) → v < 10 ^ suc room → v / 10 < 10 ^ room
shorter room v h = let e : 10 ^ suc room ≡ 10 ^ room * 10 = pow-suc 10 room in omega arith

-- The loop ends within the buffer for every number of at most `room` digits.
fill_total :
    (room v : ℕ) (text : String)
    → v < 10 ^ room
    → (r : ℕ) × (t : String) × (fill room v text ≡ some (r, t))
unfolding fill
fill_total zero v text h = (0, text, ground arith)
fill_total (suc room) v text h = elim (Bool-cases (v == 0)) [
  | inl e ↦ (suc room, text, rw e)
  | inr e ↦
      rw e (fill_total room (v / 10) (String.◌∷◌ (digit_char (v % 10)) text) (shorter room v h))
]

-- One digit fewer leaves room for a sign.
fill_total_signed :
    (room v : ℕ) (text : String)
    → v < 10 ^ room
    → (r : ℕ) × (t : String) × (fill (suc room) v text ≡ some (suc r, t))
unfolding fill
fill_total_signed zero v text h = (0, text, ground arith)
fill_total_signed (suc room) v text h = elim (Bool-cases (v == 0)) [
  | inl e ↦ (suc room, text, rw e)
  | inr e ↦
      rw e
        (fill_total_signed room (v / 10) (String.◌∷◌ (digit_char (v % 10)) text) (shorter room v h))
]

-- The numbers that fit the buffer of `itoa`: twelve digits, or eleven and a sign.
abbrev pub FitsBuffer : ℤ → Type 0
FitsBuffer (pos n) = n < 10 ^ 12
FitsBuffer (negsuc n) = suc n < 10 ^ 11

itoa_pos : (v : ℕ) → (v == 0) ≡ false → itoa (pos v) ≡ put_sign false (fill 12 v "")
unfolding itoa
itoa_pos v e = rw e

itoa_negsuc : (v : ℕ) → itoa (negsuc v) ≡ put_sign true (fill 12 (suc v) "")
unfolding itoa
itoa_negsuc v = refl

itoa_zero : (v : ℕ) → (v == 0) ≡ true → itoa (pos v) ≡ some "0"
unfolding itoa
itoa_zero v e = rw e

-- A number whose text has at most twelve characters is formatted without a panic.
pub itoa_total : (n : ℤ) → FitsBuffer n → (t : String) × (itoa n ≡ some t)
unfolding put_sign
itoa_total (pos v) h = elim (Bool-cases (v == 0)) [
  | inl e ↦ ("0", itoa_zero v e)
  | inr e ↦ let f = fill_total 12 v "" h in (f.1, rw (itoa_pos v e, f.2))
]
itoa_total (negsuc v) h =
    let f = fill_total_signed 11 (suc v) "" h in (String.◌∷◌ "-" f.1, rw (itoa_negsuc v, f.2))

pub format_trust_total : (n : ℤ) → FitsBuffer n → (t : String) × (format_trust n ≡ some t)
unfolding format_trust
format_trust_total n h = let t = itoa_total n h in ("device trust is " ++ t.0 ++ "/100", rw t.1)

module _ {W : Type 0} ⦃d : Double W⦄ where
  -- Both numbers that `ftoa` prints fit.
  unfoldable pub FitsText : W → Type 0
  unfolding first_decimal
  FitsText z = FitsBuffer (d.trunc z) × FitsBuffer (first_decimal z)

  pub format_z_score_total : (z : W) → FitsText z → (t : String) × (format_z_score z ≡ some t)
  unfolding format_z_score ftoa FitsText
  format_z_score_total z h =
      let whole = itoa_total (d.trunc z) h.0 in
      let frac = itoa_total (first_decimal z) h.1 in
      (
        "access volume is "
            ++ (whole.0 ++ "." ++ frac.0)
            ++ " standard deviations above this user's norm",
        rw (whole.1, frac.1),
      )
