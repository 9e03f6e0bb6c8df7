-- ===== src/Web/Recipients.antt =====
-- apps/web/components/recipients-editor.tsx: the changes that the editor makes to the recipients. The
-- controls themselves are views; a percentage typed in is rounded to basis points by the browser's
-- floating point, and comes as the patch of the share.
pub mod Balance
use flare_studio.Base.Text.{Text}
use flare_studio.Base.{
  ℕ, zero, suc, ◌+◌, ◌-◌, ◌*◌, ◌/◌, Bool, Option, some, none, List, [], ◌∷◌, ◌++◌, length, ◌==◌,
  if◌then◌else◌,
}
use flare_studio.Policy.Schema.{Recipient, share_total}

-- The patches that the fields of a recipient make.
pub data RecipientPatch : Type 0 where
  set_label : Text → RecipientPatch
  set_share : ℕ → RecipientPatch
  set_address : Text → RecipientPatch

unfoldable pub patch_recipient : RecipientPatch → Recipient → Recipient
patch_recipient (set_label label) r = record {
  address = r.address;
  share_bps = r.share_bps;
  label = some label;
}
patch_recipient (set_share share) r = record {
  address = r.address;
  share_bps = share;
  label = r.label;
}
patch_recipient (set_address address) r = record {
  address = address;
  share_bps = r.share_bps;
  label = r.label;
}

-- Out of range, nothing changes.
unfoldable pub update_recipient : ℕ → RecipientPatch → List Recipient → List Recipient
unfolding patch_recipient
update_recipient index patch [] = []
update_recipient zero patch (r ∷ rs) = patch_recipient patch r ∷ rs
update_recipient (suc index) patch (r ∷ rs) = r ∷ update_recipient index patch rs

unfoldable pub remove_recipient : ℕ → List Recipient → List Recipient
remove_recipient index [] = []
remove_recipient zero (r ∷ rs) = rs
remove_recipient (suc index) (r ∷ rs) = r ∷ remove_recipient index rs

unfoldable pub add_recipient : List Recipient → List Recipient
add_recipient rs = rs ++ record { address = []; share_bps = 0; label = some [] } ∷ []

-- The shares of a list, from index `i`: `each` for all but the last, which takes what is left.
unfoldable pub rebalance_from : (count each i : ℕ) → List Recipient → List Recipient
rebalance_from count each i [] = []
rebalance_from count each i (r ∷ rs) =
    record {
      address = r.address;
      share_bps = if i == count - 1 then 10_000 - each * (count - 1) else each;
      label = r.label;
    }
    ∷ rebalance_from count each (i + 1) rs

-- The division by the length of no recipients at all is not used.
unfoldable pub rebalance : List Recipient → List Recipient
unfolding rebalance_from
rebalance rs = rebalance_from (length rs) (10_000 / length rs) 0 rs

unfoldable pub is_balanced : List Recipient → Bool
unfolding share_total
is_balanced rs = share_total 0 rs == 10_000
