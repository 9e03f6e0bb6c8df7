-- ===== src/Policy/TeeInfo.antt =====
-- packages/policy/src/tee-info.ts: the enclave's public key, read from the extension proxy's answer.
pub mod Reading
pub mod Tests
use flare_studio.Base.Text.{Text, codes, starts_with}
use flare_studio.Base.Value.{Value, str, obj, Fields, get}
use flare_studio.Base.{
  ℕ, ◌/◌, Bool, true, false, ◌&&◌, ◌||◌, not, Option, none, some, List, [], ◌∷◌, ◌++◌, Result, ok,
  err, length, drop, ◌==◌, if◌then◌else◌,
}

-- The two messages of the errors that are thrown, the second with the lengths of the coordinates.
pub data TeeInfoError : Type 0 where
  no_public_key : TeeInfoError
  unexpected_coordinates : (x y : ℕ) → TeeInfoError

pub record TeePublicKeyPoint : Type 0 where
  pub x : Text
  pub y : Text

unfoldable pub strip_hex : Text → Text
unfolding starts_with
strip_hex v = if starts_with (codes "0x") v || starts_with (codes "0X") v then drop 2 v else v

-- A value with the two coordinates as strings.
unfoldable pub as_point : Value → Option TeePublicKeyPoint
as_point (obj fs) = elim (get (codes "x") fs) [
  | str x ↦ elim (get (codes "y") fs) [ str y ↦ some (record { x = x; y = y }) | _ ↦ none ]
  | _ ↦ none
]
as_point _ = none

-- One round of the loop over the sections.
unfoldable pub section_point : Text → Fields → Option TeePublicKeyPoint
unfolding as_point
section_point key root = elim (get key root) [
  | obj section ↦ as_point (get (codes "publicKey") section)
  | _ ↦ none
]

unfoldable pub find_public_key : Value → Option TeePublicKeyPoint
unfolding section_point
find_public_key (obj root) = elim (section_point (codes "machineData") root) [
  | some point ↦ some point
  | none ↦ section_point (codes "teeInfo") root
]
find_public_key _ = none

unfoldable pub tee_public_key_from_info : Value → Result TeeInfoError Text
tee_public_key_from_info info = elim (find_public_key info) [
  | none ↦ err no_public_key
  | some point ↦
      let x = strip_hex point.x in
      let y = strip_hex point.y in
      if not (length x == 64) || not (length y == 64)
      then err (unexpected_coordinates (length x) (length y))
      else ok (codes "0x04" ++ (x ++ y))
]
