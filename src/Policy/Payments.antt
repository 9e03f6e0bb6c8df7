-- ===== src/Policy/Payments.antt =====
-- packages/policy/src/chain-payments.ts: the reference that a proof-of-life payment carries. viem's
-- packed encoder and its hash are parameters; the encoder throws on what is no address.
pub mod Memo
use flare_studio.Base.Text.{Text, codes}
use flare_studio.Base.{ℕ, ◌-◌, ◌&&◌, List, Result, ok, ◌>>=◌, drop, map, leb, if◌then◌else◌}

pub record PackedHash (E : Type 0) : Type 0 where
  pub encode_packed : Text → Text → Result E (List ℕ)
  pub keccak256 : List ℕ → Text

abbrev pub policy_reference_tag : Text
policy_reference_tag = codes "flare-studio.policy-reference.v1"

unfoldable pub policy_reference : {E : Type 0} → PackedHash E → Text → Result E Text
policy_reference viem policy = do
  packed ← viem.encode_packed policy_reference_tag policy
  ok (viem.keccak256 packed)

-- `toUpperCase`, on ASCII: a reference is a hexadecimal text.
unfoldable pub upper : ℕ → ℕ
upper c = if leb b'a' c && leb c b'z' then c - 32 else c

unfoldable pub xrpl_memo_data : Text → Text
unfolding upper
xrpl_memo_data reference = map upper (drop 2 reference)
