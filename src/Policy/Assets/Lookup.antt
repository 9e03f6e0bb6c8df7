-- ===== src/Policy/Assets/Lookup.antt =====
-- When `getAsset` returns, and what it returns.
use flare_studio.Base.Text.{Text, codes, text_eq, text_eq_iff}
use flare_studio.Base.{◌≡◌, ◌↔◌, ◌⊎◌, ok, true, List, [], ◌∷◌, any, arith, err}
use flare_studio.Policy.Assets.{
  SupportedAsset, own, get_asset, fxrp, fbtc, object_prototype, unknown_asset,
}

-- The texts of a list, compared one after the other.
abbrev pub Among : Text → List Text → Type 0
Among s [] = ⊥
Among s (t ∷ ts) = (s ≡ t) ⊎ Among s ts

pub any-Among_iff : (s : Text) (ts : List Text) → (any (text_eq s) ts ≡ true) ↔ Among s ts
any-Among_iff s [] = ground arith
any-Among_iff s (t ∷ ts) = ground (arith, any-Among_iff s ts, text_eq_iff s t)

-- `getAsset` returns a registry entry for the two registered symbols only, and each its own entry.
pub get_asset-eq-own_iff :
    (symbol : Text) (a : SupportedAsset)
    → (get_asset symbol ≡ ok (own a))
      ↔ (((codes "FXRP" ≡ symbol) × (a ≡ fxrp)) ⊎ ((codes "FBTC" ≡ symbol) × (a ≡ fbtc)))
unfolding get_asset
get_asset-eq-own_iff symbol a =
    ground (arith, text_eq_iff (codes "FXRP") symbol, text_eq_iff (codes "FBTC") symbol)

-- `getAsset` throws exactly for the symbols that are neither registered nor the name of a property
-- of `Object.prototype`; the error lists the registered ones.
pub get_asset_throws_iff :
    (symbol : Text)
    → (get_asset symbol ≡ err (unknown_asset symbol (codes "FXRP" ∷ codes "FBTC" ∷ [])))
      ↔ ¬ ((codes "FXRP" ≡ symbol) ⊎ (codes "FBTC" ≡ symbol) ⊎ Among symbol object_prototype)
unfolding get_asset
get_asset_throws_iff symbol = ground (
  arith,
  text_eq_iff (codes "FXRP") symbol,
  text_eq_iff (codes "FBTC") symbol,
  any-Among_iff symbol object_prototype,
)
