-- ===== src/Policy/Compile/Enclave.antt =====
-- What the enclave receives and what the chain sees, for a policy that compiles.
use mathlib.Core.Path.{subst}
use flare_studio.Base.Text.{Text, to_lower_case}
use flare_studio.Base.{
  ℕ, suc, ◌+◌, ◌≤◌, true, List, [], ◌∷◌, map, ok, ◌≡◌, refl, sym, ◌∙◌, ap, ap₂, All, arith, length,
  all,
}
use flare_studio.Policy.Schema.{
  Recipient, Action, split_transfer, PolicyIr, ShapeParser, shape_ok, action_ok, recipient_ok,
}
use flare_studio.Policy.Schema.Refine.{IsSplit, Fresh, DistinctFrom, sum_shares}
use flare_studio.Policy.Canonical.{canonicalize}
use flare_studio.Policy.Commitment.{Viem, compute_commitment}
use flare_studio.Policy.Compile.{
  CompiledPolicy, EnclaveShare, share_distribution, enclave_share, enclave_value, compile,
}
use flare_studio.Policy.Compile.Laws.{
  IsAssembled, enclave_distribution, map-enclave_distribution, compile-IsCompiled,
}

-- The shares as the enclave must find them.
abbrev pub sum_bps : List EnclaveShare → ℕ
sum_bps [] = 0
sum_bps (s ∷ ss) = s.share_bps + sum_bps ss

abbrev pub DistinctShares : List Text → List EnclaveShare → Type 0
DistinctShares seen [] = Unit {0}
DistinctShares seen (s ∷ ss) =
    Fresh (to_lower_case s.recipient) seen × DistinctShares (to_lower_case s.recipient ∷ seen) ss

pub record IsPayable (shares : List EnclaveShare) : Type 0 where
  pub some_share : 1 ≤ length shares
  pub whole : sum_bps shares ≡ 10_000
  pub in_range : All (λ s. (1 ≤ s.share_bps) × (s.share_bps ≤ 10_000)) shares
  pub distinct : DistinctShares [] shares

sum_bps-map : (rs : List Recipient) → sum_bps (map enclave_share rs) ≡ sum_shares rs
unfolding enclave_share
sum_bps-map [] = refl
sum_bps-map (r ∷ rs) = omega (arith, sum_bps-map rs)

in_range-map :
    (rs : List Recipient)
    → all recipient_ok rs ≡ true
    → All (λ s. (1 ≤ s.share_bps) × (s.share_bps ≤ 10_000)) (map enclave_share rs)
unfolding enclave_share recipient_ok
in_range-map [] h = tt
in_range-map (r ∷ rs) h = ground (arith, in_range-map rs)

distinct-map :
    (seen : List Text) (rs : List Recipient)
    → DistinctFrom seen rs
    → DistinctShares seen (map enclave_share rs)
unfolding enclave_share
distinct-map seen [] h = tt
distinct-map seen (r ∷ rs) h = (h.0, distinct-map (to_lower_case r.address ∷ seen) rs h.1)

length-map_share : (rs : List Recipient) → length (map enclave_share rs) ≡ length rs
length-map_share [] = refl
length-map_share (r ∷ rs) = ap (λ (n : ℕ). suc n) (length-map_share rs)

first_action_ok :
    (ir : PolicyIr) (rs : List Recipient) (more : List Action)
    → ir.actions ≡ split_transfer rs ∷ more
    → shape_ok ir ≡ true
    → (1 ≤ length rs) × (all recipient_ok rs ≡ true)
unfolding shape_ok action_ok
first_action_ok ir rs more e h = ground arith

module _ {Input : Type 0} (zod : ShapeParser Input) (viem : Viem) (input : Input) (salt : Text)
    (c : CompiledPolicy) (h : compile zod viem input salt ≡ ok c) where
  -- The enclave, hashing the recipients and shares that it receives with the salt that it receives,
  -- in the order received, gets the commitment that is published.
  pub compile-enclave_commitment :
      compute_commitment viem
        (map enclave_distribution c.enclave_config.shares)
        c.enclave_config.salt
      ≡ ok c.public_args.commitment
  compile-enclave_commitment =
      let made = compile-IsCompiled zod viem input salt c h in
      let a = made.assembled in
      ap₂ (λ ss s. compute_commitment viem (map enclave_distribution ss) s) a.enclave_shares
        a.enclave_salt
      ∙ ap (λ ds. compute_commitment viem ds salt) (map-enclave_distribution made.recipients)
      ∙ a.committed

  -- The shares that the enclave receives are at least one, total 10000 basis points, are each
  -- between 1 and 10000, and go to addresses that differ in more than letter case.
  pub compile-IsPayable : IsPayable c.enclave_config.shares
  compile-IsPayable =
      let made = compile-IsCompiled zod viem input salt c h in
      let rs = made.recipients in
      let (some_one, in_range) =
        first_action_ok c.ir rs made.later_actions made.first
          (zod.parse_sound input c.ir made.parsed) in
      let split : All IsSplit (split_transfer rs ∷ made.later_actions) =
        rw made.first at made.split in
      subst IsPayable (sym made.assembled.enclave_shares) (record {
        some_share = rw length-map_share some_one;
        whole = sum_bps-map rs ∙ split.0.0;
        in_range = in_range-map rs in_range;
        distinct = distinct-map [] rs split.0.1;
      })

same_assembled :
    (viem : Viem) (ir ir' : PolicyIr) (salt : Text) (rs rs' : List Recipient)
    (c c' : CompiledPolicy)
    → IsAssembled viem ir salt rs c
    → IsAssembled viem ir' salt rs' c'
    → map enclave_share rs ≡ map enclave_share rs'
    → (c.enclave_config ≡ c'.enclave_config)
      × (c.plaintext ≡ c'.plaintext)
      × (c.public_args.commitment ≡ c'.public_args.commitment)
same_assembled viem ir ir' salt rs rs' c c' a a' e =
    let config : c.enclave_config ≡ c'.enclave_config =
      ground (arith, a.enclave_salt, a'.enclave_salt, a.enclave_shares, a'.enclave_shares) in
    let dists : map share_distribution rs ≡ map share_distribution rs' =
      sym (map-enclave_distribution rs)
      ∙ ap (map enclave_distribution) e
      ∙ map-enclave_distribution rs' in
    (
      config,
      cc (a.sealed, a'.sealed, ap (λ x. canonicalize (enclave_value x)) config),
      cc (a.committed, a'.committed, ap (λ ds. compute_commitment viem ds salt) dists),
    )

-- Two policies that compile under one salt, with the same addresses and shares in the same order,
-- have the same enclave payload, the same sealed text and the same commitment; and what each publishes
-- is its asset, trigger and conditions with that commitment. So the policy's name and the recipients'
-- labels are in none of these.
pub compile_ignores_labels :
    {Input : Type 0} (zod : ShapeParser Input) (viem : Viem) (input input' : Input) (salt : Text)
    (c c' : CompiledPolicy)
    → compile zod viem input salt ≡ ok c
    → compile zod viem input' salt ≡ ok c'
    → map enclave_share c.private_config.recipients ≡ map enclave_share c'.private_config.recipients
    → (c.enclave_config ≡ c'.enclave_config)
      × (c.plaintext ≡ c'.plaintext)
      × (c.public_args.commitment ≡ c'.public_args.commitment)
      × (c.public_args ≡ record {
        asset_symbol = c.ir.asset;
        commitment = c'.public_args.commitment;
        trigger = c.ir.trigger;
        conditions = c.ir.conditions;
      })
compile_ignores_labels zod viem input input' salt c c' h h' e =
    let d = compile-IsCompiled zod viem input salt c h in
    let d' = compile-IsCompiled zod viem input' salt c' h' in
    let a = d.assembled in
    let (config, sealed, hash) =
      same_assembled viem c.ir c'.ir salt d.recipients d'.recipients c c' a d'.assembled
        (cc (e, a.private_recipients, d'.assembled.private_recipients)) in
    (config, sealed, hash, ground (arith, a.asset_symbol, a.trigger, a.conditions, hash))

-- Two policies that compile, with the same asset, trigger and conditions, and under the same
-- commitment, publish the same arguments, whatever else differs between them.
pub compile-public_args :
    {Input : Type 0} (zod : ShapeParser Input) (viem : Viem) (input input' : Input)
    (salt salt' : Text) (c c' : CompiledPolicy)
    → compile zod viem input salt ≡ ok c
    → compile zod viem input' salt' ≡ ok c'
    → c.ir.asset ≡ c'.ir.asset
    → c.ir.trigger ≡ c'.ir.trigger
    → c.ir.conditions ≡ c'.ir.conditions
    → c.public_args.commitment ≡ c'.public_args.commitment
    → c.public_args ≡ c'.public_args
compile-public_args zod viem input input' salt salt' c c' h h' p q r s =
    let a = (compile-IsCompiled zod viem input salt c h).assembled in
    let a' = (compile-IsCompiled zod viem input' salt' c' h').assembled in
    ground
      (arith, a.asset_symbol, a.trigger, a.conditions, a'.asset_symbol, a'.trigger, a'.conditions)
