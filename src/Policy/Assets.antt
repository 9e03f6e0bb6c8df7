-- ===== src/Policy/Assets.antt =====
-- packages/policy/src/assets.ts: the asset registry.
pub mod Lookup
use flare_studio.Base.Text.{Text, codes, text_eq}
use flare_studio.Base.{
  ℕ, Bool, true, false, Option, none, some, List, [], ◌∷◌, map, Result, ok, err, any, keep,
  if◌then◌else◌,
}

pub data AddressFormat : Type 0 where
  xrpl btc doge : AddressFormat

pub record SupportedAsset : Type 0 where
  pub symbol : Text
  pub name : Text
  pub asset_manager_key : Text
  pub on_chain_symbol : Option Text
  pub decimals : ℕ
  pub fdc_source_id : Text
  pub ftso_feed_id : Text
  pub address_format : AddressFormat
  pub minimum_heartbeat : ℕ
  pub live : Bool

abbrev pub fxrp : SupportedAsset
fxrp = record {
  symbol = codes "FXRP";
  name = codes "XRP";
  asset_manager_key = codes "AssetManagerFXRP";
  on_chain_symbol = some (codes "FTestXRP");
  decimals = 6;
  fdc_source_id = codes "testXRP";
  ftso_feed_id = codes "0x015852502f55534400000000000000000000000000";
  address_format = xrpl;
  minimum_heartbeat = 100_000;
  live = true;
}

abbrev pub fbtc : SupportedAsset
fbtc = record {
  symbol = codes "FBTC";
  name = codes "Bitcoin";
  asset_manager_key = codes "AssetManagerFBTC";
  on_chain_symbol = none;
  decimals = 8;
  fdc_source_id = codes "testBTC";
  ftso_feed_id = codes "0x014254432f55534400000000000000000000000000";
  address_format = btc;
  minimum_heartbeat = 1_000;
  live = false;
}

unfoldable pub assets : List (Text × SupportedAsset)
assets = (codes "FXRP", fxrp) ∷ (codes "FBTC", fbtc) ∷ []

-- `ASSETS` is an object literal, so a key that it does not hold is looked up in `Object.prototype`.
unfoldable pub object_prototype : List Text
object_prototype =
    codes "constructor"
    ∷ codes "__defineGetter__"
    ∷ codes "__defineSetter__"
    ∷ codes "hasOwnProperty"
    ∷ codes "__lookupGetter__"
    ∷ codes "__lookupSetter__"
    ∷ codes "isPrototypeOf"
    ∷ codes "propertyIsEnumerable"
    ∷ codes "toString"
    ∷ codes "valueOf"
    ∷ codes "__proto__"
    ∷ codes "toLocaleString"
    ∷ []

-- What `ASSETS[symbol]` can be: an entry, or a property of the prototype.
pub data AssetValue : Type 0 where
  own : SupportedAsset → AssetValue
  inherited : Text → AssetValue

unfoldable pub own_asset : List (Text × SupportedAsset) → Text → Option SupportedAsset
own_asset [] symbol = none
own_asset ((key, asset) ∷ rest) symbol =
    if text_eq key symbol then some asset else own_asset rest symbol

-- The error carries the symbol and the known ones.
pub data UnknownAsset : Type 0 where
  unknown_asset : Text → List Text → UnknownAsset

unfoldable pub get_asset : Text → Result UnknownAsset AssetValue
unfolding own_asset assets object_prototype
get_asset symbol = elim (own_asset assets symbol) [
  | some asset ↦ ok (own asset)
  | none ↦
      if any (text_eq symbol) object_prototype
      then ok (inherited symbol)
      else err (unknown_asset symbol (map (λ (e : Text × SupportedAsset). e.0) assets))
]

unfoldable pub live_assets : List SupportedAsset
unfolding assets
live_assets = keep (λ a. a.live) (map (λ (e : Text × SupportedAsset). e.1) assets)
