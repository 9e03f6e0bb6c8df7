-- ===== src/Base/Value.antt =====
-- The values that the sources type `unknown` or `any`: what JSON holds, `undefined` and bigints.
use flare_studio.Base.Int.{ℤ, pos, negsuc}
use flare_studio.Base.Decimal.{decimal}
use flare_studio.Base.Text.{Text, codes, text_eq}
use flare_studio.Base.{suc, Bool, true, false, List, [], ◌∷◌, ◌++◌, if◌then◌else◌}

-- A number is kept as the numeral that JavaScript prints for it.
mutual
  -- The own enumerable properties, in the order of `Object.keys`.
  pub data Fields : Type 0 where
    field : (key : Text) (value : Value) (more : Fields) → Fields
    end : Fields

  pub data Items : Type 0 where
    cons : (item : Value) (more : Items) → Items
    nil : Items

  pub data Value : Type 0 where
    undefined null : Value
    bool : Bool → Value
    str number : Text → Value
    bigint : ℤ → Value
    obj : Fields → Value
    arr : Items → Value

-- `o[key]` on an object with no such inherited property.
unfoldable pub get : Text → Fields → Value
get key end = undefined
get key (field k v fs) = if text_eq k key then v else get key fs

-- `Object.keys`
unfoldable pub keys : Fields → List Text
keys end = []
keys (field k v fs) = k ∷ keys fs

-- An element of an array, whose `String` is `t`, in that of the array.
unfoldable pub element_text : Value → Text → Text
element_text undefined t = []
element_text null t = []
element_text v t = t

-- `String(v)`: the elements of an array with commas between them, undefined and null as nothing.
unfoldable mutual
  unfolding element_text

  pub string_of : Value → Text
  string_of undefined = codes "undefined"
  string_of null = codes "null"
  string_of (bool true) = codes "true"
  string_of (bool false) = codes "false"
  string_of (number n) = n
  string_of (bigint (pos n)) = decimal n
  string_of (bigint (negsuc n)) = b'-' ∷ decimal (suc n)
  string_of (str s) = s
  string_of (obj fs) = codes "[object Object]"
  string_of (arr nil) = []
  string_of (arr (cons v vs)) = element_text v (string_of v) ++ rest_text vs

  pub rest_text : Items → Text
  rest_text nil = []
  rest_text (cons v vs) = b',' ∷ (element_text v (string_of v) ++ rest_text vs)
