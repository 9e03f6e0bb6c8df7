-- ===== src/Web/Display.antt =====
-- apps/web/components/primitives.tsx: how amounts, shares, addresses and durations are written. The
-- elements around the texts are views.
pub mod Digits
pub mod Exact
pub mod Remaining
use flare_studio.Base.Int.{ℤ, pos, negsuc}
use flare_studio.Base.Text.{Text, codes}
use flare_studio.Base.Decimal.{decimal}
use flare_studio.Base.{
  ℕ, zero, suc, ◌+◌, ◌-◌, ◌*◌, ◌/◌, ◌%◌, ◌^◌, Bool, true, false, ◌&&◌, not, Option, none, some,
  List, [], ◌∷◌, ◌++◌, length, take, drop, replicate, leb, ltb, ◌==◌, if◌then◌else◌,
}

-- The comma of `/\B(?=(\d{3})+(?!\d))/g` comes before each three digits from the end, and not at the
-- start.
unfoldable pub group_digits : Text → Text
group_digits [] = []
group_digits (c ∷ s) =
    c ∷ ((if not (length s == 0) && length s % 3 == 0 then codes "," else []) ++ group_digits s)

-- `text.padStart(n, '0')`
unfoldable pub pad_start : ℕ → Text → Text
pad_start n text = replicate (n - length text) b'0' ++ text

unfoldable pub abs_value : ℤ → ℕ
abs_value (pos n) = n
abs_value (negsuc n) = suc n

unfoldable pub sign_text : ℤ → Text
sign_text (pos n) = []
sign_text (negsuc n) = codes "-"

unfoldable pub fraction_text : ℕ → ℤ → Text
unfolding pad_start abs_value
fraction_text decimals value = pad_start decimals (decimal (abs_value value % 10 ^ decimals))

unfoldable pub whole_text : ℕ → ℤ → Text
unfolding group_digits abs_value
whole_text decimals value = group_digits (decimal (abs_value value / 10 ^ decimals))

-- The full value, which the title has.
unfoldable pub exact_text : ℕ → ℤ → Text
unfolding sign_text whole_text fraction_text
exact_text decimals value =
    sign_text value
    ++ (whole_text decimals value
        ++ (if ltb 0 decimals then b'.' ∷ fraction_text decimals value else []))

-- What is shown, with `precision` digits of the fraction: they are cut off, not rounded.
unfoldable pub shown_text : (decimals precision : ℕ) → ℤ → Text
unfolding sign_text whole_text fraction_text
shown_text decimals precision value =
    sign_text value
    ++ (whole_text decimals value ++ (elim (take precision (fraction_text decimals value)) [
      | [] ↦ []
      | c ∷ cs ↦ b'.' ∷ c ∷ cs
    ]))

-- Basis points as a percentage: `toFixed(2)` of a hundredth of a whole number.
unfoldable pub share_text : ℕ → Text
unfolding pad_start
share_text bps =
    if bps % 100 == 0
    then decimal (bps / 100) ++ codes "%"
    else decimal (bps / 100) ++ (b'.' ∷ (pad_start 2 (decimal (bps % 100)) ++ codes "%"))

-- `value.slice(-chars)` is the whole value if `chars` is 0.
unfoldable pub truncated_address : (chars : ℕ) → Text → Text
truncated_address chars value =
    let left_out = if chars == 0 then 0 else length value - chars in
    if ltb (chars * 2 + 4) (length value)
    then take (chars + 2) value ++ (0x2026 ∷ drop left_out value)
    else value

-- The units of a countdown, with their letters.
unfoldable pub duration_units : List (ℕ × Text)
duration_units = (86_400, codes "d") ∷ (3_600, codes "h") ∷ (60, codes "m") ∷ (1, codes "s") ∷ []

-- The amount of the largest unit that fits, and of the one below it.
pub record Countdown : Type 0 where
  pub major : ℕ
  pub unit : ℕ × Text
  pub lower : Option (ℕ × (ℕ × Text))

unfoldable pub lower_part : (rest : ℕ) → List (ℕ × Text) → Option (ℕ × (ℕ × Text))
lower_part rest [] = none
lower_part rest (u ∷ us) = some (rest / u.0, u)

-- The loop over the units.
unfoldable pub countdown_from : ℕ → List (ℕ × Text) → Option Countdown
unfolding lower_part
countdown_from seconds [] = none
countdown_from seconds (u ∷ us) =
    let later = countdown_from seconds us in
    if ltb seconds u.0
    then later
    else some (record { major = seconds / u.0; unit = u; lower = lower_part (seconds % u.0) us })

unfoldable pub countdown : ℕ → Option Countdown
unfolding countdown_from duration_units
countdown seconds = countdown_from seconds duration_units

unfoldable pub lower_text : Option (ℕ × (ℕ × Text)) → Text
lower_text none = []
lower_text (some (minor, u)) = if minor == 0 then [] else b' ' ∷ (decimal minor ++ u.1)

unfoldable pub countdown_text : Option Countdown → Text
unfolding lower_text
countdown_text none = codes "0s"
countdown_text (some c) = decimal c.major ++ (c.unit.1 ++ lower_text c.lower)

-- A time that has passed is overdue.
unfoldable pub duration_text : ℤ → Text
unfolding countdown_text countdown
duration_text (pos n) = countdown_text (countdown n)
duration_text (negsuc n) = codes "overdue by " ++ countdown_text (countdown (suc n))
