-- ===== src/Policy/Canonical/Total.antt =====
-- `canonicalize` turns every bigint into a string first, so that `JSON.stringify` never throws.
use flare_studio.Base.Text.{Text}
use flare_studio.Base.Value.{
  Value, undefined, null, bool, number, bigint, str, arr, obj, Items, nil, cons, Fields, end, field,
}
use flare_studio.Base.{true, false, Option, Result, ok, err, ◌>>=◌, ◌≡◌, refl, arith}
use flare_studio.Policy.Canonical.{
  sort_keys, sort_items, sort_fields, insert_field, insert_index, indices_before, without_indices,
  from_entries, canonicalize,
}
use flare_studio.Base.Json.{stringify, stringify_items, stringify_fields}

-- A value with no bigint in it.
abbrev mutual
  NoBigint : Value → Type 0
  NoBigint undefined = Unit
  NoBigint null = Unit
  NoBigint (bool b) = Unit
  NoBigint (number n) = Unit
  NoBigint (bigint b) = ⊥
  NoBigint (str s) = Unit
  NoBigint (arr xs) = NoBigintItems xs
  NoBigint (obj fs) = NoBigintFields fs

  NoBigintItems : Items → Type 0
  NoBigintItems nil = Unit
  NoBigintItems (cons x xs) = NoBigint x × NoBigintItems xs

  NoBigintFields : Fields → Type 0
  NoBigintFields end = Unit
  NoBigintFields (field k v fs) = NoBigint v × NoBigintFields fs

insert_field-NoBigint :
    (k : Text) (v : Value) (fs : Fields)
    → NoBigint v
    → NoBigintFields fs
    → NoBigintFields (insert_field k v fs)
unfolding insert_field
insert_field-NoBigint k v end h hs = (h, tt)
insert_field-NoBigint k v (field j w fs) h hs = ground (arith, insert_field-NoBigint k v fs h hs.1)

insert_index-NoBigint :
    (k : Text) (v : Value) (fs : Fields)
    → NoBigint v
    → NoBigintFields fs
    → NoBigintFields (insert_index k v fs)
unfolding insert_index
insert_index-NoBigint k v end h hs = (h, tt)
insert_index-NoBigint k v (field j w fs) h hs = ground (arith, insert_index-NoBigint k v fs h hs.1)

without_indices-NoBigint : (fs : Fields) → NoBigintFields fs → NoBigintFields (without_indices fs)
unfolding without_indices
without_indices-NoBigint end hs = tt
without_indices-NoBigint (field k v fs) hs = ground (arith, without_indices-NoBigint fs hs.1)

indices_before-NoBigint :
    (others fs : Fields)
    → NoBigintFields others
    → NoBigintFields fs
    → NoBigintFields (indices_before others fs)
unfolding indices_before
indices_before-NoBigint others end h hs = h
indices_before-NoBigint others (field k v fs) h hs = ground (
  arith,
  indices_before-NoBigint others fs h hs.1,
  insert_index-NoBigint k v (indices_before others fs) hs.0,
)

from_entries-NoBigint : (fs : Fields) → NoBigintFields fs → NoBigintFields (from_entries fs)
unfolding from_entries
from_entries-NoBigint fs hs =
    indices_before-NoBigint (without_indices fs) fs (without_indices-NoBigint fs hs) hs

mutual
  unfolding sort_keys

  sort_keys-NoBigint : (v : Value) → NoBigint (sort_keys v)
  sort_keys-NoBigint undefined = tt
  sort_keys-NoBigint null = tt
  sort_keys-NoBigint (bool b) = tt
  sort_keys-NoBigint (number n) = tt
  sort_keys-NoBigint (bigint b) = tt
  sort_keys-NoBigint (str s) = tt
  sort_keys-NoBigint (arr xs) = sort_items-NoBigint xs
  sort_keys-NoBigint (obj fs) = from_entries-NoBigint (sort_fields fs) (sort_fields-NoBigint fs)

  sort_items-NoBigint : (xs : Items) → NoBigintItems (sort_items xs)
  sort_items-NoBigint nil = tt
  sort_items-NoBigint (cons x xs) = (sort_keys-NoBigint x, sort_items-NoBigint xs)

  sort_fields-NoBigint : (fs : Fields) → NoBigintFields (sort_fields fs)
  sort_fields-NoBigint end = tt
  sort_fields-NoBigint (field k v fs) =
      insert_field-NoBigint k (sort_keys v) (sort_fields fs) (sort_keys-NoBigint v)
        (sort_fields-NoBigint fs)

abbrev IsOk {ℓ κ} : {E : Type ℓ} {A : Type κ} → Result E A → Type 0
IsOk (ok a) = Unit
IsOk (err e) = ⊥

value_of_IsOk {ℓ κ} : {E : Type ℓ} {A : Type κ} (r : Result E A) → IsOk r → (a : A) × (r ≡ ok a)
value_of_IsOk (ok a) h = (a, refl)
value_of_IsOk (err e) h = absurd h

bind-IsOk {ℓ κ μ} :
    {E : Type ℓ} {A : Type κ} {B : Type μ} (r : Result E A) (f : A → Result E B)
    → IsOk r
    → ((a : A) → IsOk (f a))
    → IsOk (r >>= f)
bind-IsOk (ok a) f h k = k a
bind-IsOk (err e) f h k = h

mutual
  unfolding stringify

  stringify-IsOk : (v : Value) → NoBigint v → IsOk (stringify v)
  stringify-IsOk undefined h = tt
  stringify-IsOk null h = tt
  stringify-IsOk (bool true) h = tt
  stringify-IsOk (bool false) h = tt
  stringify-IsOk (number n) h = tt
  stringify-IsOk (bigint b) h = h
  stringify-IsOk (str s) h = tt
  stringify-IsOk (arr xs) h =
      bind-IsOk (stringify_items xs) _ (stringify_items-IsOk xs h) (λ ts. tt)
  stringify-IsOk (obj fs) h =
      bind-IsOk (stringify_fields fs) _ (stringify_fields-IsOk fs h) (λ ts. tt)

  stringify_items-IsOk : (xs : Items) → NoBigintItems xs → IsOk (stringify_items xs)
  stringify_items-IsOk nil h = tt
  stringify_items-IsOk (cons x xs) h =
      bind-IsOk (stringify x) _ (stringify-IsOk x h.0)
        (λ t. bind-IsOk (stringify_items xs) _ (stringify_items-IsOk xs h.1) (λ ts. tt))

  stringify_fields-IsOk : (fs : Fields) → NoBigintFields fs → IsOk (stringify_fields fs)
  stringify_fields-IsOk end h = tt
  stringify_fields-IsOk (field k v fs) h =
      bind-IsOk (stringify v) _ (stringify-IsOk v h.0)
        (λ t. bind-IsOk (stringify_fields fs) _ (stringify_fields-IsOk fs h.1) (λ ts. tt))

-- Whatever value it is given, bigints included, `canonicalize` returns.
pub canonicalize_total : (v : Value) → (t : Option Text) × (canonicalize v ≡ ok t)
unfolding canonicalize
canonicalize_total v =
    value_of_IsOk (stringify (sort_keys v)) (stringify-IsOk (sort_keys v) (sort_keys-NoBigint v))
