-- ===== src/Base/Json.antt =====
-- `JSON.stringify` with no replacer and no indent.
use flare_studio.Base.Text.{Text, codes, hex_digit, is_lead, is_trail}
use flare_studio.Base.Value.{
  Value, undefined, null, bool, number, bigint, str, arr, obj, Items, nil, cons, Fields, end, field,
}
use flare_studio.Base.{
  ℕ, ◌/◌, ◌%◌, Bool, true, false, ◌&&◌, ◌||◌, not, Option, none, some, List, [], ◌∷◌, ◌++◌, Result,
  ok, err, ltb, ◌==◌, ◌>>=◌, if◌then◌else◌,
}

-- \u and four lower-case hexadecimal digits.
unit_escape : ℕ → Text
unfolding hex_digit
unit_escape c =
    0x5c
    ∷ b'u'
    ∷ hex_digit (c / 4096 % 16)
    ∷ hex_digit (c / 256 % 16)
    ∷ hex_digit (c / 16 % 16)
    ∷ hex_digit (c % 16)
    ∷ []

starts_with_trail : Text → Bool
unfolding is_trail
starts_with_trail [] = false
starts_with_trail (c ∷ s) = is_trail c

-- A unit that is no half of a surrogate pair.
lone_unit : ℕ → Text
unfolding is_lead is_trail unit_escape
lone_unit c =
    if c == 0x22
    then 0x5c ∷ 0x22 ∷ []
    else if c == 0x5c
    then 0x5c ∷ 0x5c ∷ []
    else if c == 8
    then 0x5c ∷ b'b' ∷ []
    else if c == 9
    then 0x5c ∷ b't' ∷ []
    else if c == 10
    then 0x5c ∷ b'n' ∷ []
    else if c == 12
    then 0x5c ∷ b'f' ∷ []
    else if c == 13
    then 0x5c ∷ b'r' ∷ []
    else if ltb c 32 || is_lead c || is_trail c
    then unit_escape c
    else c ∷ []

-- `paired` says that the unit before has paired up with this one.
quote_units : Bool → Text → Text
quote_units paired [] = 0x22 ∷ []
quote_units paired (c ∷ s) =
    let pairs = not paired && is_lead c && starts_with_trail s in
    (if paired || pairs then c ∷ [] else lone_unit c) ++ quote_units pairs s

unfoldable pub quote : Text → Text
unfolding quote_units is_lead starts_with_trail lone_unit
quote s = 0x22 ∷ quote_units false s

comma_joined : List Text → Text
comma_joined [] = []
comma_joined (t ∷ []) = t
comma_joined (t ∷ u ∷ ts) = t ++ b',' ∷ comma_joined (u ∷ ts)

pub data TypeError : Type 0 where
  bigint_in_json : TypeError

or_null : Option Text → Text
or_null none = codes "null"
or_null (some t) = t

with_key : Text → Option Text → List Text → List Text
unfolding quote
with_key k none ts = ts
with_key k (some t) ts = (quote k ++ b':' ∷ t) ∷ ts

-- `undefined` has no text: a list writes null for it, and an object leaves the key out. A number is the
-- numeral of a finite one, which JSON has: NaN and the infinities, written null, are not among the values.
unfoldable mutual
  unfolding quote comma_joined or_null with_key

  pub stringify : Value → Result TypeError (Option Text)
  stringify undefined = ok none
  stringify null = ok (some (codes "null"))
  stringify (bool true) = ok (some (codes "true"))
  stringify (bool false) = ok (some (codes "false"))
  stringify (number n) = ok (some n)
  stringify (bigint b) = err bigint_in_json
  stringify (str s) = ok (some (quote s))
  stringify (arr xs) = do ts ← stringify_items xs; ok (some (b'[' ∷ comma_joined ts ++ b']' ∷ []))
  stringify (obj fs) = do ts ← stringify_fields fs; ok (some (b'{' ∷ comma_joined ts ++ b'}' ∷ []))

  pub stringify_items : Items → Result TypeError (List Text)
  stringify_items nil = ok []
  stringify_items (cons x xs) = do t ← stringify x; ts ← stringify_items xs; ok (or_null t ∷ ts)

  pub stringify_fields : Fields → Result TypeError (List Text)
  stringify_fields end = ok []
  stringify_fields (field k v fs) = do
    t ← stringify v
    ts ← stringify_fields fs
    ok (with_key k t ts)
