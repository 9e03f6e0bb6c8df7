-- ===== src/Policy/Compile.antt =====
-- packages/policy/src/compile.ts: a policy is split into what the chain may see and what only the
-- enclave may.
pub mod Laws
pub mod Enclave
pub mod Failures
use flare_studio.Base.Int.{ℤ, pos}
use flare_studio.Base.Text.{Text, codes}
use flare_studio.Base.Decimal.{decimal}
use flare_studio.Base.Value.{Value, str, number, obj, arr, Items, nil, cons, Fields, field, end}
use flare_studio.Base.{
  ℕ, Option, none, some, List, [], ◌∷◌, map, Result, ok, err, ◌>>=◌, find?, true,
}
use flare_studio.Policy.Assets.{UnknownAsset, AssetValue, get_asset}
use flare_studio.Policy.Schema.{
  Trigger, Condition, Recipient, Action, split_transfer, PolicyIr, Issue, ShapeParser, safe_parse,
}
use flare_studio.Base.Json.{TypeError}
use flare_studio.Policy.Canonical.{canonicalize}
use flare_studio.Policy.Commitment.{Distribution, Viem, compute_commitment}

pub record PublicArgs : Type 0 where
  pub asset_symbol : Text
  pub commitment : Text
  pub trigger : Trigger
  pub conditions : List Condition

pub record PrivateConfig : Type 0 where
  pub version : ℕ
  pub name : Text
  pub recipients : List Recipient

pub record EnclaveShare : Type 0 where
  pub recipient : Text
  pub share_bps : ℕ

pub record EnclaveConfig : Type 0 where
  pub salt : Text
  pub shares : List EnclaveShare

pub record CompiledPolicy : Type 0 where
  pub ir : PolicyIr
  pub public_args : PublicArgs
  pub private_config : PrivateConfig
  pub enclave_config : EnclaveConfig
  pub plaintext : Option Text

-- What `compile` throws: a PolicyCompileError that names the first issue, if there is one, or that
-- finds no distribution; and the errors of the calls in it.
pub data CompileError : Type 0 where
  invalid_policy : Option Issue → CompileError
  no_distribution_action : CompileError
  asset_error : UnknownAsset → CompileError
  encoder_error : Text → CompileError
  stringify_error : TypeError → CompileError

unfoldable pub share_distribution : Recipient → Distribution
share_distribution r = record { recipient = r.address; amount = pos r.share_bps }

unfoldable pub share_commitment_set : PrivateConfig → List Distribution
unfolding share_distribution
share_commitment_set config = map share_distribution config.recipients

unfoldable pub enclave_share : Recipient → EnclaveShare
enclave_share r = record { recipient = r.address; share_bps = r.share_bps }

-- The object literal that `canonicalize` is given.
unfoldable pub shares_value : List EnclaveShare → Items
shares_value [] = nil
shares_value (s ∷ ss) =
    cons
      (obj (
        field (codes "recipient") (str s.recipient)
          (field (codes "shareBps") (number (decimal s.share_bps)) end)))
      (shares_value ss)

unfoldable pub enclave_value : EnclaveConfig → Value
unfolding shares_value
enclave_value c =
    obj
      (field (codes "salt") (str c.salt) (field (codes "shares") (arr (shares_value c.shares)) end))

-- An error of a call, as an error of `compile`.
unfoldable pub throws {ℓ} :
    {E : Type ℓ} {A : Type 0} → (E → CompileError) → Result E A → Result CompileError A
throws wrap (ok a) = ok a
throws wrap (err e) = err (wrap e)

-- `ir.actions.find((a) => a.kind === 'splitTransfer')`: there is no other kind.
unfoldable pub find_transfer : List Action → Option (List Recipient)
find_transfer [] = none
find_transfer (split_transfer recipients ∷ actions) = some recipients

-- From the recipients of the distribution on.
unfoldable pub assemble :
    Viem → PolicyIr → Text → List Recipient → Result CompileError CompiledPolicy
unfolding throws share_commitment_set enclave_share
assemble viem ir salt recipients = do
  let private_config : PrivateConfig = record {
    version = 1;
    name = ir.name;
    recipients = recipients;
  }
  commitment ←
      throws encoder_error (compute_commitment viem (share_commitment_set private_config) salt)
  let enclave_config : EnclaveConfig = record { salt = salt; shares = map enclave_share recipients }
  plaintext ← throws stringify_error (canonicalize (enclave_value enclave_config))
  ok (record {
    ir = ir;
    public_args = record {
      asset_symbol = ir.asset;
      commitment = commitment;
      trigger = ir.trigger;
      conditions = ir.conditions;
    };
    private_config = private_config;
    enclave_config = enclave_config;
    plaintext = plaintext;
  })

unfoldable pub first_issue : List Issue → Option Issue
first_issue [] = none
first_issue (i ∷ is) = some i

unfoldable pub compile :
    {Input : Type 0} → ShapeParser Input → Viem → Input → Text → Result CompileError CompiledPolicy
unfolding throws first_issue find_transfer
compile zod viem input salt = do
  ir ← throws (λ is. invalid_policy (first_issue is)) (safe_parse zod input)
  _ ← throws asset_error (get_asset ir.asset)
  recipients ← elim (find_transfer ir.actions) [
    | none ↦ err no_distribution_action
    | some rs ↦ ok rs
  ]
  assemble viem ir salt recipients
