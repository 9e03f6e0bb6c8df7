-- ===== src/Web/Display/Remaining.antt =====
-- A countdown shows what is left, to the unit below the largest one that fits.
use flare_studio.Base.{ℕ, ◌+◌, ◌*◌, ◌≤◌, ◌<◌, none, some, ◌≡◌, arith}
use flare_studio.Web.Display.{Countdown, lower_part, duration_units, countdown_from, countdown}

-- What a countdown says, in seconds, and the size of the last unit that it says it in.
abbrev pub said : Countdown → ℕ
said c = elim c.lower [
  | none ↦ c.major * c.unit.0
  | some (minor, u) ↦ c.major * c.unit.0 + minor * u.0
]

abbrev pub step : Countdown → ℕ
step c = elim c.lower [ none ↦ c.unit.0 | some (minor, u) ↦ u.0 ]

-- A countdown of at least a second says how long is left, rounded down to the unit below the largest
-- one that fits, and to the second where that is the largest; less than a second has none.
pub countdown-said :
    (seconds : ℕ) (c : Countdown)
    → countdown seconds ≡ some c
    → (1 ≤ c.major) × (said c ≤ seconds) × (seconds < said c + step c)
unfolding countdown countdown_from duration_units lower_part
countdown-said seconds c h = ground (arith, h)
