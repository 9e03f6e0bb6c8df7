-- ===== src/Web/Durations.antt =====
-- apps/web/lib/triggers.ts and canvas.ts: durations in days, months and years. Seconds and the values
-- typed in are whole numbers; `Math.round` of a quotient rounds a half up.
use flare_studio.Base.Text.{Text, codes}
use flare_studio.Base.Decimal.{decimal}
use flare_studio.Base.{
  ℕ, ◌+◌, ◌*◌, ◌/◌, ◌%◌, ◌≤◌, ◌&&◌, ◌++◌, ◌≡◌, ap, ◌∙◌, arith, leb, ◌==◌, if◌then◌else◌,
}

pub data DurationUnit : Type 0 where
  days months years : DurationUnit

-- `Math.round(seconds / 86_400)`
unfoldable pub rounded_days : ℕ → ℕ
rounded_days seconds = (seconds * 2 + 86_400) / 172_800

unfoldable pub at_least_one : ℕ → ℕ
at_least_one n = if leb n 1 then 1 else n

unfoldable pub split_duration : ℕ → ℕ × DurationUnit
unfolding rounded_days at_least_one
split_duration seconds =
    let n = at_least_one (rounded_days seconds) in
    if n % 365 == 0 then (n / 365, years) else if n % 30 == 0 then (n / 30, months) else (n, days)

unfoldable pub join_duration : ℕ → DurationUnit → ℕ
unfolding at_least_one
join_duration n years = at_least_one (n * 365) * 86_400
join_duration n months = at_least_one (n * 30) * 86_400
join_duration n days = at_least_one n * 86_400

unfoldable pub counted : ℕ → Text → Text → Text
counted n one many = if n == 1 then one else decimal n ++ many

unfoldable pub format_interval : ℕ → Text
unfolding rounded_days counted
format_interval seconds =
    let n = rounded_days seconds in
    if leb 365 n && n % 365 == 0
    then counted (n / 365) (codes "1 year") (codes " years")
    else if leb 30 n && n % 30 == 0
    then counted (n / 30) (codes "1 month") (codes " months")
    else counted n (codes "1 day") (codes " days")

-- The days that a number of a unit has.
abbrev pub days_of : ℕ × DurationUnit → ℕ
days_of (n, days) = n
days_of (n, months) = n * 30
days_of (n, years) = n * 365

join_duration-split_duration :
    (seconds : ℕ)
    → join_duration (split_duration seconds).0 (split_duration seconds).1
      ≡ at_least_one (rounded_days seconds) * 86_400
unfolding join_duration split_duration at_least_one
join_duration-split_duration seconds = ground arith

days_of-split_duration :
    (seconds : ℕ) → days_of (split_duration seconds) ≡ at_least_one (rounded_days seconds)
unfolding split_duration
days_of-split_duration seconds = ground arith

rounded_whole : (n : ℕ) → 1 ≤ n → at_least_one (rounded_days (n * 86_400)) ≡ n
unfolding rounded_days at_least_one
rounded_whole n h = ground arith

join_duration_lem : (n : ℕ) (u : DurationUnit) → 1 ≤ n → join_duration n u ≡ days_of (n, u) * 86_400
unfolding join_duration at_least_one
join_duration_lem n days h = ground arith
join_duration_lem n months h = ground arith
join_duration_lem n years h = ground arith

days_of-positive : (n : ℕ) (u : DurationUnit) → 1 ≤ n → 1 ≤ days_of (n, u)
days_of-positive n days h = h
days_of-positive n months h = omega arith
days_of-positive n years h = omega arith

split_years : (n : ℕ) → 1 ≤ n → split_duration (n * 365 * 86_400) ≡ (n, years)
unfolding split_duration
split_years n h = rw (rounded_whole (n * 365) (omega arith)) (ground arith)

-- A duration of whole days, at least one, is the same after it was split for the input and joined.
pub join_duration-split_whole :
    (n : ℕ)
    → 1 ≤ n
    → join_duration (split_duration (n * 86_400)).0 (split_duration (n * 86_400)).1 ≡ n * 86_400
join_duration-split_whole n h =
    join_duration-split_duration (n * 86_400) ∙ ap (λ (k : ℕ). k * 86_400) (rounded_whole n h)

-- What a user typed, a number of at least one and a unit, is shown again as the same number of days,
-- in years whenever that is exact.
pub split_duration-join_duration :
    (n : ℕ) (u : DurationUnit)
    → 1 ≤ n
    → (days_of (split_duration (join_duration n u)) ≡ days_of (n, u))
      × (split_duration (join_duration n years) ≡ (n, years))
split_duration-join_duration n u h = (
  ap (λ s. days_of (split_duration s)) (join_duration_lem n u h)
      ∙ days_of-split_duration (days_of (n, u) * 86_400)
      ∙ rounded_whole (days_of (n, u)) (days_of-positive n u h),
  ap split_duration (join_duration_lem n years h) ∙ split_years n h,
)
