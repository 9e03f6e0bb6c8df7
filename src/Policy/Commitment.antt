-- ===== src/Policy/Commitment.antt =====
-- packages/policy/src/commitment.ts, `Distribution` and `computeCommitment`. viem's ABI encoder and
-- hash are parameters; the encoder throws on an address or a salt that it does not accept.
use flare_studio.Base.Int.{ℤ}
use flare_studio.Base.Text.{Text}
use flare_studio.Base.{ℕ, List, Result, ok, ◌>>=◌}

pub record Distribution : Type 0 where
  pub recipient : Text
  pub amount : ℤ

-- The calls of viem: `encodeAbiParameters` at the types (Distribution[], bytes32), and `keccak256`.
pub record Viem : Type 0 where
  pub encode_abi_parameters : List Distribution → Text → Result Text (List ℕ)
  pub keccak256 : List ℕ → Text

unfoldable pub compute_commitment : Viem → List Distribution → Text → Result Text Text
compute_commitment viem distributions salt = do
  bytes ← viem.encode_abi_parameters distributions salt
  ok (viem.keccak256 bytes)
