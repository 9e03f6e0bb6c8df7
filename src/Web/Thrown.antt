-- ===== src/Web/Thrown.antt =====
-- What a call that the web application makes can throw, and what it tells the user of it: `message`
-- of apps/web/lib/deploy.ts, and `walletErrorMessage` of apps/web/lib/wallet.ts with the same body.
use flare_studio.Base.Text.{Text, codes}
use flare_studio.Base.{ℕ, Bool, false, Option, none, some, [], ◌∷◌, ◌++◌, ◌==◌, if◌then◌else◌}

-- An object with the fields that `message` reads, or another value; `printed` is its `String`.
pub data Thrown : Type 0 where
  exception : (code : Option ℕ) (short_message message : Option Text) (printed : Text) → Thrown
  other_value : (printed : Text) → Thrown

-- `new Error(text)`
unfoldable pub error_of : Text → Thrown
error_of [] = exception none none (some []) (codes "Error")
error_of (c ∷ cs) = exception none none (some (c ∷ cs)) (codes "Error: " ++ c ∷ cs)

-- `text.split('\n')[0]`
unfoldable pub first_line : Text → Text
first_line [] = []
first_line (c ∷ cs) = let rest = first_line cs in if c == b'\n' then [] else c ∷ rest

unfoldable pub is_rejection : Option ℕ → Bool
is_rejection none = false
is_rejection (some code) = code == 4001

unfoldable pub message : Thrown → Text
unfolding is_rejection first_line
message (other_value printed) = printed
message (exception code short_message text printed) =
    if is_rejection code
    then codes "You rejected the request in your wallet."
    else elim short_message [
      | some (c ∷ cs) ↦ c ∷ cs
      | _ ↦ elim text [ some (c ∷ cs) ↦ first_line (c ∷ cs) | _ ↦ printed ]
    ]

abbrev pub wallet_error_message : Thrown → Text
wallet_error_message = message
