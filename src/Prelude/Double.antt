-- ===== src/Prelude/Double.antt =====
-- Go's float64: the operations that the program calls, as an interface. The theorems that need a
-- law of it take the law as a hypothesis; exact arithmetic in tenths meets these laws.
use Prim.Native.Nat.{ℕ, zero, suc, ◌*◌, ◌≤◌}
use mathlib.Core.Path.{◌≡◌}
use mathlib.Core.Bool.{Bool}
use native.Mathlib.Omega.{arith}
use netra.Prelude.Int.{ℤ, pos, negsuc, quot, ◌+ℤ◌, ◌-ℤ◌, ◌*ℤ◌, ltb_ℤ, leb_ℤ}

pub record Double (W : Type 0) : Type 0 where
  -- float64(n), for an int n
  pub of_int : ℤ → W
  -- the constant n / 10
  pub tenths : ℕ → W
  pub add : W → W → W
  pub sub : W → W → W
  pub mul : W → W → W
  pub div : W → W → W
  pub sqrt : W → W
  pub lt : W → W → Bool
  pub le : W → W → Bool
  -- int(x), towards zero
  pub trunc : W → ℤ

-- What IEEE 754 and the conversion to int guarantee on small whole numbers, where every value
-- involved is represented exactly: a product with 1 is exact, and adding a half and truncating
-- returns the number.
pub record IsExact {W : Type 0} (d : Double W) : Type 0 where
  pub mul_one : (n : ℕ) → n ≤ 1000 → d.mul (d.of_int (pos n)) (d.of_int (pos 1)) ≡ d.of_int (pos n)
  pub round : (n : ℕ) → n ≤ 1000 → d.trunc (d.add (d.of_int (pos n)) (d.tenths 5)) ≡ pos n

-- The greatest integer whose square is not above n, searched downwards from k.
abbrev root_below : ℕ → ℕ → ℕ
root_below zero n = 0
root_below (suc k) n =
    let rest = root_below k n in
    elim (leb_ℤ (pos (suc k * suc k)) (pos n)) [ Bool.true ↦ suc k | Bool.false ↦ rest ]

-- An integer n stands for n / 10.
instance abbrev pub tenths_double : Double ℤ
unfolding ◌+ℤ◌ ◌-ℤ◌ ◌*ℤ◌ quot
tenths_double = record {
  of_int = λ n. n *ℤ pos 10;
  tenths = pos;
  add = ◌+ℤ◌;
  sub = ◌-ℤ◌;
  mul = λ a b. quot (a *ℤ b) 10;
  div = λ a b. elim b [ pos n ↦ quot (a *ℤ pos 10) n | negsuc n ↦ quot (a *ℤ negsuc 9) (suc n) ];
  sqrt = λ a. elim a [ pos n ↦ pos (root_below n (n * 10)) | negsuc n ↦ pos 0 ];
  lt = ltb_ℤ;
  le = leb_ℤ;
  trunc = λ a. quot a 10;
}

pub tenths-IsExact : IsExact tenths_double
unfolding ◌+ℤ◌ ◌-ℤ◌ ◌*ℤ◌ quot
tenths-IsExact = record { mul_one = λ n h. ground arith; round = λ n h. ground arith }
