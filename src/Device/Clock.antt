-- ===== src/Device/Clock.antt =====
-- Which timestamps CheckClockSkew accepts.
use netra.Prelude.{
  ◌-◌, ◌≡◌, refl, ◌∙◌, Bool, true, false, not, ◌&&◌, ◌||◌, ℤ, pos, negsuc, ◌-ℤ◌, ltb_ℤ, leb_ℤ,
  arith, if◌then◌else◌,
}
use netra.Device.Signing.{sub_time, negate, drift, check_clock_skew, max_duration, max_clock_skew}

-- The test on the difference now - timestamp.
accepts : ℤ → Bool
accepts d =
    let cut =
      if ltb_ℤ (pos max_duration) d
      then pos max_duration
      else if ltb_ℤ d (negsuc max_duration)
      then negsuc max_duration
      else d in
    let magnitude = if ltb_ℤ cut (pos 0) then negate cut else cut in
    not (ltb_ℤ (pos max_clock_skew) magnitude)

check_clock_skew-accepts :
    (timestamp now : ℤ) → check_clock_skew timestamp now ≡ accepts (now -ℤ timestamp)
unfolding check_clock_skew drift sub_time accepts
check_clock_skew-accepts timestamp now = refl

abbrev pub within_skew : ℤ → Bool
within_skew d = leb_ℤ d (pos max_clock_skew) && leb_ℤ (negsuc (max_clock_skew - 1)) d

accepts_lem : (d : ℤ) → accepts d ≡ (within_skew d || leb_ℤ d (negsuc max_duration))
unfolding accepts negate ◌-ℤ◌
accepts_lem (pos n) = ground arith
accepts_lem (negsuc n) = ground arith

-- A timestamp is accepted exactly if it is at most five minutes before or after the clock, or if it
-- is 2 ^ 63 nanoseconds or more, some 292 years, ahead of the clock.
pub check_clock_skew_lem :
    (timestamp now : ℤ)
    → check_clock_skew timestamp now
      ≡ (within_skew (now -ℤ timestamp) || leb_ℤ (now -ℤ timestamp) (negsuc max_duration))
check_clock_skew_lem timestamp now =
    check_clock_skew-accepts timestamp now ∙ accepts_lem (now -ℤ timestamp)

late_difference :
    (d : ℤ)
    → ltb_ℤ (pos max_clock_skew) d ≡ true
    → (within_skew d || leb_ℤ d (negsuc max_duration)) ≡ false
late_difference d h = ground arith

pub check_clock_skew_late :
    (timestamp now : ℤ)
    → ltb_ℤ (pos max_clock_skew) (now -ℤ timestamp) ≡ true
    → check_clock_skew timestamp now ≡ false
check_clock_skew_late timestamp now h =
    check_clock_skew_lem timestamp now ∙ late_difference (now -ℤ timestamp) h
