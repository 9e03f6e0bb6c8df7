-- ===== src/Web/Chain.antt =====
-- apps/web/lib/chain.ts: where the contracts are. The addresses are read from the environment of the
-- build, so a record of them is a parameter.
use flare_studio.Base.Text.{Text, codes}
use flare_studio.Base.{ℕ, Bool, false, ◌&&◌, not, ◌∷◌, all, ◌==◌}

pub record Addresses : Type 0 where
  pub policy_factory : Text
  pub tee_attestor_gate : Text
  pub manual_heartbeat_trigger : Text
  pub timestamp_trigger : Text
  pub fdc_nonexistence_trigger : Text
  pub fxrp : Text
  pub policy_instruction_sender : Text

abbrev pub chain_id : ℕ
chain_id = 114

abbrev pub chain_name : Text
chain_name = codes "Flare Testnet Coston2"

-- /^0x0+$/
unfoldable pub is_unset : Text → Bool
is_unset (z ∷ x ∷ d ∷ ds) = z == b'0' && x == b'x' && d == b'0' && all (λ c. c == b'0') ds
is_unset _ = false

unfoldable pub is_set : Text → Bool
unfolding is_unset
is_set address = not (is_unset address)

unfoldable pub enclave_handoff_configured : Addresses → Bool
enclave_handoff_configured a = is_set a.policy_instruction_sender

unfoldable pub contracts_configured : Addresses → Bool
contracts_configured a =
    is_set a.policy_factory && is_set a.tee_attestor_gate && is_set a.manual_heartbeat_trigger
