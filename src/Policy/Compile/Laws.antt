-- ===== src/Policy/Compile/Laws.antt =====
-- What a compiled policy is made of, and how compilation fails.
use mathlib.Core.Path.{subst}
use flare_studio.Base.Int.{pos}
use flare_studio.Base.Text.{Text}
use flare_studio.Base.{
  some, List, [], ◌∷◌, map, Result, ok, err, >>=-eq-ok, ◌≡◌, refl, sym, ap, All, arith,
  Option-cases, inl, inr,
}
use flare_studio.Policy.Assets.{AssetValue, get_asset}
use flare_studio.Policy.Schema.{
  Recipient, Action, split_transfer, PolicyIr, ShapeParser, safe_parse,
}
use flare_studio.Policy.Schema.Refine.{IsSplit, safe_parse-eq-ok_iff}
use flare_studio.Policy.Canonical.{canonicalize}
use flare_studio.Policy.Commitment.{Distribution, Viem, compute_commitment}
use flare_studio.Policy.Compile.{
  CompiledPolicy, EnclaveShare, CompileError, share_distribution, enclave_share, enclave_value,
  throws, find_transfer, assemble, compile,
}

-- The set that the enclave hashes, made from what it receives.
abbrev pub enclave_distribution : EnclaveShare → Distribution
enclave_distribution s = record { recipient = s.recipient; amount = pos s.share_bps }

pub map-enclave_distribution :
    (rs : List Recipient)
    → map enclave_distribution (map enclave_share rs) ≡ map share_distribution rs
unfolding enclave_share share_distribution
map-enclave_distribution [] = refl
map-enclave_distribution (r ∷ rs) = ap (λ t. share_distribution r ∷ t) (map-enclave_distribution rs)

pub throws-eq-ok {ℓ} :
    {E : Type ℓ} {A : Type 0} (wrap : E → CompileError) (r : Result E A) {a : A}
    → throws wrap r ≡ ok a
    → r ≡ ok a
unfolding throws
throws-eq-ok wrap (ok a) h = cc
throws-eq-ok wrap (err e) h = cc

-- The parts of a compiled policy, in terms of the recipients that it was made from.
pub record IsAssembled (viem : Viem) (ir : PolicyIr) (salt : Text) (rs : List Recipient)
    (c : CompiledPolicy) : Type 0 where
  pub same_ir : c.ir ≡ ir
  pub asset_symbol : c.public_args.asset_symbol ≡ ir.asset
  pub trigger : c.public_args.trigger ≡ ir.trigger
  pub conditions : c.public_args.conditions ≡ ir.conditions
  pub private_recipients : c.private_config.recipients ≡ rs
  pub private_name : c.private_config.name ≡ ir.name
  pub enclave_salt : c.enclave_config.salt ≡ salt
  pub enclave_shares : c.enclave_config.shares ≡ map enclave_share rs
  pub committed :
      compute_commitment viem (map share_distribution rs) salt ≡ ok c.public_args.commitment
  pub sealed : canonicalize (enclave_value c.enclave_config) ≡ ok c.plaintext

module _ (viem : Viem) (ir : PolicyIr) (salt : Text) (rs : List Recipient) where
  pub assemble-IsAssembled :
      (c : CompiledPolicy) → assemble viem ir salt rs ≡ ok c → IsAssembled viem ir salt rs c
  unfolding assemble
  assemble-IsAssembled c h = ground arith

-- Where a compiled policy comes from: the parsed input, its first distribution, and a known asset.
pub record IsCompiled {Input : Type 0} (zod : ShapeParser Input) (viem : Viem) (input : Input)
    (salt : Text) (c : CompiledPolicy) : Type 0 where
  pub recipients : List Recipient
  pub later_actions : List Action
  pub asset : AssetValue
  pub parsed : zod.parse input ≡ ok c.ir
  pub split : All IsSplit c.ir.actions
  pub known : get_asset c.ir.asset ≡ ok asset
  pub first : c.ir.actions ≡ split_transfer recipients ∷ later_actions
  pub assembled : IsAssembled viem c.ir salt recipients c

module _ {Input : Type 0} (zod : ShapeParser Input) (viem : Viem) (input : Input)
    (salt : Text) where
  from_first :
      (ir : PolicyIr) (actions : List Action) (a : AssetValue) (c : CompiledPolicy)
      → safe_parse zod input ≡ ok ir
      → get_asset ir.asset ≡ ok a
      → ir.actions ≡ actions
      → (rs : List Recipient) → find_transfer actions ≡ some rs
      → assemble viem ir salt rs ≡ ok c
      → IsCompiled zod viem input salt c
  unfolding find_transfer
  from_first ir [] a c p k e rs f h = cc
  from_first ir (split_transfer rs' ∷ actions) a c p k e rs f h =
      let made = assemble-IsAssembled viem ir salt rs c h in
      let (parsed, split) = (safe_parse-eq-ok_iff zod input ir).0 p in
      let same = made.same_ir in
      record {
        recipients = rs;
        later_actions = actions;
        asset = a;
        parsed = rw same parsed;
        split = rw same split;
        known = rw same k;
        first = cc (ap (λ (i : PolicyIr). i.actions) same);
        assembled = subst (λ i. IsAssembled viem i salt rs c) (sym same) made;
      }

  -- A policy that compiles was accepted by the validator and the refinement, names a known asset,
  -- and is assembled from the recipients of its first action.
  pub compile-IsCompiled :
      (c : CompiledPolicy) → compile zod viem input salt ≡ ok c → IsCompiled zod viem input salt c
  unfolding compile throws
  compile-IsCompiled c h =
      let (ir, p, h1) = >>=-eq-ok (throws _ (safe_parse zod input)) _ h in
      let (a, k, h2) = >>=-eq-ok (throws _ (get_asset ir.asset)) _ h1 in
      elim (Option-cases (find_transfer ir.actions)) [
        | inl missing ↦ let bad = rw missing at h2 in cc
        | inr (rs, found) ↦
            from_first ir ir.actions a c (throws-eq-ok _ _ p) (throws-eq-ok _ _ k) refl rs found
              (rw found at h2)
      ]
