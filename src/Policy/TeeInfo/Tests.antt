-- ===== src/Policy/TeeInfo/Tests.antt =====
-- An answer of the proxy, and the theorems at it.
use flare_studio.Base.Text.{Text, codes, text_eq}
use flare_studio.Base.Value.{Value, obj, str, field, end, get}
use flare_studio.Base.{◌++◌, ok, ◌≡◌, ◌↔◌, replicate}
use flare_studio.Policy.TeeInfo.{
  tee_public_key_from_info, find_public_key, section_point, as_point, strip_hex,
}
use flare_studio.Policy.TeeInfo.Reading.{IsKeyOf, tee_public_key_from_info-eq-ok_iff}

abbrev pub coordinate : Text
coordinate = replicate 64 b'7'

abbrev pub info : Text → Value
info prefix = obj (
    field (codes "machineData")
      (obj (
        field (codes "publicKey")
          (obj (
            field (codes "x") (str (prefix ++ coordinate))
              (field (codes "y") (str coordinate) end)))
          end))
      end)

info_run : Unit {0}
unfolding tee_public_key_from_info find_public_key section_point as_point strip_hex get text_eq
info_run = tt

abbrev pub key : Text
key = codes "0x04" ++ (coordinate ++ coordinate)

tee_public_key_from_info-eq-ok_iff_example :
    (tee_public_key_from_info (info (codes "0x")) ≡ ok key) ↔ IsKeyOf key (info (codes "0x"))
tee_public_key_from_info-eq-ok_iff_example =
    tee_public_key_from_info-eq-ok_iff (info (codes "0x")) key
