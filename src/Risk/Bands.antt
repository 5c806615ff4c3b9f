-- ===== src/Risk/Bands.antt =====
-- The bands of a score under valid thresholds.
use netra.Prelude.{ℕ, ◌≤◌, ◌≡◌, ◌↔◌, true, ℤ, ◌≤ℤ◌, arith}
use netra.Risk.Model.{Thresholds, Level, validate, level}

-- The position of a level among the bands.
abbrev pub rank : Level → ℕ
rank Level.low = 0
rank Level.medium = 1
rank Level.elevated = 2
rank Level.high = 3
rank Level.critical = 4

-- The scores of each band: the thresholds are inclusive upper bounds.
abbrev pub InBand : Thresholds → Level → ℤ → Type 0
InBand t Level.low s = s ≤ℤ t.low
InBand t Level.medium s = ¬ (s ≤ℤ t.low) × (s ≤ℤ t.medium)
InBand t Level.elevated s = ¬ (s ≤ℤ t.medium) × (s ≤ℤ t.elevated)
InBand t Level.high s = ¬ (s ≤ℤ t.elevated) × (s ≤ℤ t.high)
InBand t Level.critical s = ¬ (s ≤ℤ t.high)

-- A higher score is never in a lower band, whatever the thresholds are.
pub level_monotone : (t : Thresholds) (s u : ℤ) → s ≤ℤ u → rank (level t s) ≤ rank (level t u)
unfolding level
level_monotone t s u h = ground arith

-- Under valid thresholds a score has a level exactly if it is in that level's band.
pub level-InBand :
    (t : Thresholds) (s : ℤ) (l : Level) → validate t ≡ true → (level t s ≡ l) ↔ InBand t l s
unfolding level validate
level-InBand t s Level.low h = (λ e. ground arith, λ b. ground arith)
level-InBand t s _ h = (λ e. ground arith, λ b. ground arith)
