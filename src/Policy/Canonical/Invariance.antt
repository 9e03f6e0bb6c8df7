-- ===== src/Policy/Canonical/Invariance.antt =====
-- Values that differ in the order of their objects' keys only, at any depth.
use flare_studio.Base.Text.{Text}
use flare_studio.Base.Value.{Value, arr, obj, Items, nil, cons, Fields, end, field}
use flare_studio.Base.{◌≡◌, ◌≢◌, refl, ◌∙◌, ap, ap₂}
use flare_studio.Policy.Canonical.{
  sort_keys, sort_items, sort_fields, from_entries, insert_field, canonicalize,
}
use flare_studio.Policy.Canonical.Insertion.{insert_field_comm}

mutual
  pub data Reordered : Value → Value → Type 0 where
    same : {v : Value} → Reordered v v
    in_arr : {xs ys : Items} → ReorderedItems xs ys → Reordered (arr xs) (arr ys)
    in_obj : {fs gs : Fields} → ReorderedFields fs gs → Reordered (obj fs) (obj gs)

  pub data ReorderedItems : Items → Items → Type 0 where
    nils : ReorderedItems nil nil
    conses :
        {v w : Value} {xs ys : Items}
        → Reordered v w
        → ReorderedItems xs ys
        → ReorderedItems (cons v xs) (cons w ys)

  pub data ReorderedFields : Fields → Fields → Type 0 where
    ends : ReorderedFields end end
    fields :
        {k : Text} {v w : Value} {fs gs : Fields}
        → Reordered v w
        → ReorderedFields fs gs
        → ReorderedFields (field k v fs) (field k w gs)
    swapped :
        {j k : Text} {v w : Value} {fs : Fields}
        → j ≢ k
        → ReorderedFields (field j v (field k w fs)) (field k w (field j v fs))
    chained :
        {fs gs hs : Fields} → ReorderedFields fs gs → ReorderedFields gs hs → ReorderedFields fs hs

mutual
  unfolding sort_keys

  sort_keys-Reordered : {v w : Value} → Reordered v w → sort_keys v ≡ sort_keys w
  sort_keys-Reordered same = refl
  sort_keys-Reordered (in_arr r) = ap arr (sort_items-Reordered r)
  sort_keys-Reordered (in_obj r) = ap (λ fs. obj (from_entries fs)) (sort_fields-Reordered r)

  sort_items-Reordered : {xs ys : Items} → ReorderedItems xs ys → sort_items xs ≡ sort_items ys
  sort_items-Reordered nils = refl
  sort_items-Reordered (conses r rs) = ap₂ cons (sort_keys-Reordered r) (sort_items-Reordered rs)

  sort_fields-Reordered : {fs gs : Fields} → ReorderedFields fs gs → sort_fields fs ≡ sort_fields gs
  sort_fields-Reordered ends = refl
  sort_fields-Reordered (fields {k = k} r rs) =
      ap₂ (insert_field k) (sort_keys-Reordered r) (sort_fields-Reordered rs)
  sort_fields-Reordered (swapped {j = j} {k = k} {v = v} {w = w} {fs = fs} ne) =
      insert_field_comm j k (sort_keys v) (sort_keys w) (sort_fields fs) ne
  sort_fields-Reordered (chained r s) = sort_fields-Reordered r ∙ sort_fields-Reordered s

-- Two values that differ only in the order in which their objects' keys were written, at any depth,
-- have the same canonical text.
pub canonicalize-Reordered : {v w : Value} → Reordered v w → canonicalize v ≡ canonicalize w
unfolding canonicalize
canonicalize-Reordered r = rw (sort_keys-Reordered r)
