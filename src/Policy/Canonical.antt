-- ===== src/Policy/Canonical.antt =====
-- packages/policy/src/commitment.ts, `canonicalize` and `sortKeys`, with the order in which
-- JavaScript lists an object's keys.
mod Insertion
pub mod Invariance
pub mod Total
use flare_studio.Base.Int.{ℤ, pos, negsuc}
use flare_studio.Base.Text.{Text, codes, text_eq, is_digit}
use flare_studio.Base.Order.{text_lt}
use flare_studio.Base.Decimal.{decimal, value_from}
use flare_studio.Base.Value.{
  Value, undefined, null, bool, number, bigint, str, arr, obj, Items, nil, cons, Fields, end, field,
}
use flare_studio.Base.Json.{TypeError, stringify}
use flare_studio.Base.{
  ℕ, suc, ◌^◌, ◌-◌, ◌/◌, ◌%◌, ◌+◌, Bool, true, false, ◌&&◌, ◌||◌, Option, none, some, List, [], ◌∷◌,
  ◌++◌, Result, ok, err, all, ltb, leb, ◌==◌, ◌>>=◌, if◌then◌else◌,
}

unfoldable pub insert_field : Text → Value → Fields → Fields
insert_field k v end = field k v end
insert_field k v (field j w fs) =
    let later = insert_field k v fs in
    if text_lt j k then field j w later else field k v (field j w fs)

-- A key that names an array index comes first when an object's keys are listed.
unfoldable pub is_index : Text → Bool
is_index [] = false
is_index (c ∷ cs) =
    text_eq (c ∷ cs) (codes "0")
    || leb b'1' c && leb c b'9' && all is_digit cs && ltb (value_from 0 (c ∷ cs)) (2 ^ 32 - 1)

insert_index : Text → Value → Fields → Fields
insert_index k v end = field k v end
insert_index k v (field j w fs) =
    let later = insert_index k v fs in
    if ltb (value_from 0 j) (value_from 0 k) then field j w later else field k v (field j w fs)

-- The indices among the fields, by value, in front of `others`.
indices_before : Fields → Fields → Fields
indices_before others end = others
indices_before others (field k v fs) =
    let rest = indices_before others fs in if is_index k then insert_index k v rest else rest

without_indices : Fields → Fields
without_indices end = end
without_indices (field k v fs) =
    let rest = without_indices fs in if is_index k then rest else field k v rest

-- `Object.fromEntries` on entries with distinct keys.
pub from_entries : Fields → Fields
unfolding insert_index indices_before without_indices is_index
from_entries fs = indices_before (without_indices fs) fs

pub bigint_text : ℤ → Text
bigint_text (pos n) = decimal n
bigint_text (negsuc n) = b'-' ∷ decimal (suc n)

-- The source sorts the keys and then the values at them; here the values come first.
unfoldable mutual
  unfolding from_entries bigint_text

  pub sort_keys : Value → Value
  sort_keys undefined = undefined
  sort_keys null = null
  sort_keys (bool b) = bool b
  sort_keys (number n) = number n
  sort_keys (bigint b) = str (bigint_text b)
  sort_keys (str s) = str s
  sort_keys (arr xs) = arr (sort_items xs)
  sort_keys (obj fs) = obj (from_entries (sort_fields fs))

  pub sort_items : Items → Items
  sort_items nil = nil
  sort_items (cons x xs) = cons (sort_keys x) (sort_items xs)

  pub sort_fields : Fields → Fields
  sort_fields end = end
  sort_fields (field k v fs) = insert_field k (sort_keys v) (sort_fields fs)

unfoldable pub canonicalize : Value → Result TypeError (Option Text)
unfolding stringify sort_keys
canonicalize v = stringify (sort_keys v)
