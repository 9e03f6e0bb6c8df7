-- ===== src/Web/Monitor/Funding.antt =====
-- The calls of a deposit.
use flare_studio.Base.Text.{Text}
use flare_studio.Base.{ℕ, true, false, List, [], ◌∷◌, ◌++◌, ◌≡◌, ◌⊎◌, Result, ok, err, ltb}
use flare_studio.Web.Thrown.{Thrown}
use flare_studio.Web.Monitor.{PolicyCall, approve, deposit, PageEnv, Page}

module _ {W : Type 0} (env : PageEnv W) (address : Text) where
  abbrev pub approval : (policy : Text) → ℕ → PolicyCall
  approval policy amount = approve env.addresses.fxrp policy amount

  abbrev pub Failed : {A : Type 0} → Result Thrown A → Type 0
  Failed r = (e : Thrown) × (r ≡ err e)

  -- The calls that a deposit makes for an answer on the allowance: the approval comes first, and only
  -- for an allowance that is too low, and an approval that failed is not followed by the deposit.
  abbrev pub IsFunded :
      Result Thrown ℕ → (policy : Text) → ℕ → List PolicyCall → Result Thrown Text → Type 0
  IsFunded (err e) policy amount made result = (made ≡ []) × (result ≡ err e)
  IsFunded (ok allowed) policy amount made result =
      ((made ≡ deposit policy amount ∷ []) × (ltb allowed amount ≡ false))
      ⊎ ((ltb allowed amount ≡ true)
          × (((made ≡ approval policy amount ∷ []) × Failed result)
              ⊎ (made ≡ approval policy amount ∷ deposit policy amount ∷ [])))

  -- What was made since `before`.
  abbrev pub Made :
      (before : List PolicyCall)
      → (List PolicyCall → Result Thrown Text → Type 0)
      → Result Thrown Text × Page W
      → Type 0
  Made before P r = (made : List PolicyCall) × (r.1.calls ≡ before ++ made) × P made r.0
