-- ===== src/Policy/Canonical/Insertion.antt =====
-- Inserting two fields in either order gives the same object.
use flare_studio.Base.Text.{Text}
use flare_studio.Base.Order.{text_lt_asymm, text_lt_antisymm, text_lt_of_le_lt}
use flare_studio.Base.Value.{Value, Fields, end, field}
use flare_studio.Base.{◌≡◌, ◌≢◌, arith}
use flare_studio.Policy.Canonical.{insert_field}

pub insert_field_comm :
    (a b : Text) (v w : Value) (fs : Fields)
    → a ≢ b
    → insert_field a v (insert_field b w fs) ≡ insert_field b w (insert_field a v fs)
unfolding insert_field
insert_field_comm a b v w end ne = ground (arith, text_lt_asymm a b, text_lt_antisymm a b)
insert_field_comm a b v w (field j x fs) ne = ground (
  arith,
  text_lt_asymm a b,
  text_lt_antisymm a b,
  text_lt_of_le_lt b j a,
  text_lt_of_le_lt a j b,
  insert_field_comm a b v w fs ne,
)
