-- ===== src/Policy/Shares.antt =====
-- packages/policy/src/compile.ts, `resolveDistributions`: shares become amounts.
pub mod Total
use flare_studio.Base.Int.{ℤ, pos, ◌+ℤ◌, ◌-ℤ◌, mul_div}
use flare_studio.Base.{ℕ, ◌+◌, ◌-◌, Bool, List, [], ◌∷◌, length, ◌==◌, if◌then◌else◌}
use flare_studio.Policy.Schema.{Recipient}
use flare_studio.Policy.Commitment.{Distribution}
use flare_studio.Policy.Compile.{PrivateConfig}

-- The amount of one recipient: the last takes what is left.
unfoldable pub share_amount : Bool → ℤ → ℤ → ℕ → ℤ
share_amount is_last balance allocated bps =
    if is_last then balance -ℤ allocated else mul_div balance bps 10_000

-- `forEach` from index `i`, with `allocated`, over a list of `n` recipients.
unfoldable pub resolve_from : ℕ → ℕ → ℤ → ℤ → List Recipient → List Distribution
resolve_from n i balance allocated [] = []
resolve_from n i balance allocated (r ∷ rs) =
    let amount = share_amount (i == n - 1) balance allocated r.share_bps in
    record { recipient = r.address; amount = amount }
    ∷ resolve_from n (i + 1) balance (allocated +ℤ amount) rs

unfoldable pub resolve_distributions : PrivateConfig → ℤ → List Distribution
unfolding resolve_from
resolve_distributions config balance =
    resolve_from (length config.recipients) 0 balance (pos 0) config.recipients
