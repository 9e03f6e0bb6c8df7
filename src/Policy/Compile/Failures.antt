-- ===== src/Policy/Compile/Failures.antt =====
-- How compilation fails, and when it does not.
use mathlib.Core.Path.{subst}
use flare_studio.Base.Text.{Text}
use flare_studio.Base.{
  true, List, [], ◌∷◌, map, Option, none, some, Result, ok, err, ◌>>=◌, ◌≡◌, ◌≢◌, refl, All, arith,
}
use flare_studio.Base.Value.{Value}
use flare_studio.Policy.Assets.{AssetValue, get_asset}
use flare_studio.Policy.Schema.{Recipient, PolicyIr, Issue, ShapeParser, shape_ok, safe_parse}
use flare_studio.Policy.Schema.Refine.{IsSplit, safe_parse-eq-ok_iff, safe_parse-ne-no_issue}
use flare_studio.Policy.Canonical.{canonicalize}
use flare_studio.Policy.Canonical.Total.{canonicalize_total}
use flare_studio.Policy.Commitment.{Viem, compute_commitment}
use flare_studio.Policy.Compile.{
  CompiledPolicy, CompileError, invalid_policy, no_distribution_action, asset_error, encoder_error,
  stringify_error, share_distribution, enclave_share, enclave_value, throws, find_transfer,
  first_issue, assemble, compile,
}
use flare_studio.Policy.Compile.Laws.{throws-eq-ok}

-- The errors that a run can end with: the first issue of a policy that does not parse, an asset that a
-- parsed policy names and the registry does not hold, and the encoder's refusal of its shares.
module _ {Input : Type 0} (zod : ShapeParser Input) (viem : Viem) (input : Input)
    (salt : Text) where
  abbrev pub IsExpected : CompileError → Type 0
  IsExpected (invalid_policy none) = ⊥
  IsExpected (invalid_policy (some i)) =
      (more : List Issue) × (safe_parse zod input ≡ err (i ∷ more))
  IsExpected no_distribution_action = ⊥
  IsExpected (asset_error e) =
      (ir : PolicyIr) × (safe_parse zod input ≡ ok ir) × (get_asset ir.asset ≡ err e)
  IsExpected (encoder_error m) =
      (ir : PolicyIr) × (rs : List Recipient) × (safe_parse zod input ≡ ok ir)
      × (find_transfer ir.actions ≡ some rs)
      × (compute_commitment viem (map share_distribution rs) salt ≡ err m)
  IsExpected (stringify_error e) = ⊥

-- Every error that the computation ends with is as `P` has it.
abbrev ThrowsExpected {ℓ} :
    (P : CompileError → Type 0) → {A : Type ℓ} → Result CompileError A → Type 0
ThrowsExpected P (ok a) = Unit
ThrowsExpected P (err e) = P e

bind-ThrowsExpected {ℓ κ} :
    (P : CompileError → Type 0) {A : Type ℓ} {B : Type κ} (r : Result CompileError A)
    (f : A → Result CompileError B)
    → ThrowsExpected P r
    → ((a : A) → r ≡ ok a → ThrowsExpected P (f a))
    → ThrowsExpected P (r >>= f)
bind-ThrowsExpected P (ok a) f h k = k a refl
bind-ThrowsExpected P (err e) f h k = h

IsExpected-of_throws {ℓ} :
    (P : CompileError → Type 0) {A : Type ℓ} (r : Result CompileError A) {e : CompileError}
    → ThrowsExpected P r
    → r ≡ err e
    → P e
IsExpected-of_throws P (ok a) h p = cc
IsExpected-of_throws P (err e') {e} h p = let same : e' ≡ e = cc p in subst P same h

throws-ThrowsExpected :
    (P : CompileError → Type 0) {E A : Type 0} (wrap : E → CompileError) (r : Result E A)
    → ((e : E) → r ≡ err e → P (wrap e))
    → ThrowsExpected P (throws wrap r)
unfolding throws
throws-ThrowsExpected P wrap (ok a) h = tt
throws-ThrowsExpected P wrap (err e) h = h e refl

canonicalize-ThrowsExpected :
    (P : CompileError → Type 0) (v : Value)
    → ThrowsExpected P (throws stringify_error (canonicalize v))
unfolding throws
canonicalize-ThrowsExpected P v = let (t, sealed) = canonicalize_total v in rw sealed tt

assemble-ThrowsExpected :
    (P : CompileError → Type 0) (viem : Viem) (ir : PolicyIr) (salt : Text) (rs : List Recipient)
    → ((m : Text)
        → compute_commitment viem (map share_distribution rs) salt ≡ err m
        → P (encoder_error m))
    → ThrowsExpected P (assemble viem ir salt rs)
unfolding assemble
assemble-ThrowsExpected P viem ir salt rs refused =
    bind-ThrowsExpected P
      (throws encoder_error (compute_commitment viem (map share_distribution rs) salt)) _
      (throws-ThrowsExpected P encoder_error _ refused)
      λ commitment p.
        bind-ThrowsExpected P (throws stringify_error (canonicalize _)) _
          (canonicalize-ThrowsExpected P _) (λ plaintext q. tt)

find_transfer-ne-none : (ir : PolicyIr) → shape_ok ir ≡ true → find_transfer ir.actions ≢ none
unfolding shape_ok find_transfer
find_transfer-ne-none ir h = ground arith

found-ThrowsExpected {ℓ} :
    (P : CompileError → Type 0) {A : Type ℓ} (o : Option A)
    → o ≢ none
    → ThrowsExpected P {A = A} (elim o [ none ↦ err no_distribution_action | some a ↦ ok a ])
found-ThrowsExpected P none h = absurd (h refl)
found-ThrowsExpected P (some a) h = tt

found-some {ℓ} :
    {A : Type ℓ} (o : Option A) (a : A)
    → ◌≡◌ {A = Result CompileError A}
        (elim o [ none ↦ err no_distribution_action | some a ↦ ok a ])
        (ok a)
    → o ≡ some a
found-some none a h = cc
found-some (some b) a h = cc h

-- The policy that compiles, from its hash and its sealed text.
abbrev compiled : PolicyIr → Text → List Recipient → Text → Option Text → CompiledPolicy
compiled ir salt rs hash text = record {
  ir = ir;
  public_args = record {
    asset_symbol = ir.asset;
    commitment = hash;
    trigger = ir.trigger;
    conditions = ir.conditions;
  };
  private_config = record { version = 1; name = ir.name; recipients = rs };
  enclave_config = record { salt = salt; shares = map enclave_share rs };
  plaintext = text;
}

assemble_returns :
    (viem : Viem) (ir : PolicyIr) (salt : Text) (rs : List Recipient) (hash : Text)
    (text : Option Text)
    → compute_commitment viem (map share_distribution rs) salt ≡ ok hash
    → canonicalize (enclave_value (record { salt = salt; shares = map enclave_share rs })) ≡ ok text
    → assemble viem ir salt rs ≡ ok (compiled ir salt rs hash text)
unfolding assemble
assemble_returns viem ir salt rs hash text p q = rw (p, q)

module _ {Input : Type 0} (zod : ShapeParser Input) (viem : Viem) (input : Input)
    (salt : Text) where
  issues-IsExpected :
      (is : List Issue)
      → safe_parse zod input ≡ err is
      → IsExpected zod viem input salt (invalid_policy (first_issue is))
  unfolding first_issue
  issues-IsExpected [] p = absurd (safe_parse-ne-no_issue zod input p)
  issues-IsExpected (i ∷ is) p = (is, p)

  safe_parse-ThrowsExpected :
      ThrowsExpected
        (IsExpected zod viem input salt)
        (throws (λ is. invalid_policy (first_issue is)) (safe_parse zod input))
  safe_parse-ThrowsExpected = throws-ThrowsExpected _ _ (safe_parse zod input) issues-IsExpected

  transfer_found :
      (ir : PolicyIr)
      → throws (λ is. invalid_policy (first_issue is)) (safe_parse zod input) ≡ ok ir
      → find_transfer ir.actions ≢ none
  transfer_found ir p =
      let parsed = (safe_parse-eq-ok_iff zod input ir).0 (throws-eq-ok _ _ p) in
      find_transfer-ne-none ir (zod.parse_sound input ir parsed.0)

  compile-ThrowsExpected :
      ThrowsExpected (IsExpected zod viem input salt) (compile zod viem input salt)
  unfolding compile
  compile-ThrowsExpected =
      let P = IsExpected zod viem input salt in
      bind-ThrowsExpected P (throws _ (safe_parse zod input)) _ safe_parse-ThrowsExpected λ ir p.
        let parsed = throws-eq-ok _ _ p in
        bind-ThrowsExpected P (throws asset_error (get_asset ir.asset)) _
          (throws-ThrowsExpected P asset_error (get_asset ir.asset) (λ e q. (ir, parsed, q)))
          λ a q.
            bind-ThrowsExpected P _ _
              (found-ThrowsExpected P (find_transfer ir.actions) (transfer_found ir p))
              (λ rs r. assemble-ThrowsExpected P viem ir salt rs (λ m refused.
                (ir, rs, parsed, found-some (find_transfer ir.actions) rs r, refused)))

  -- A run of `compile` that throws does so for one of three reasons, which its error carries: the policy
  -- does not parse, and the error is its first issue; or it parses and names an asset for which the
  -- registry throws that error; or the encoder refuses the shares of its first action with that message.
  -- It never throws for want of a distribution or in `JSON.stringify`, nor with no issue to report.
  pub compile-IsExpected :
      (e : CompileError) → compile zod viem input salt ≡ err e → IsExpected zod viem input salt e
  compile-IsExpected e h =
      IsExpected-of_throws (IsExpected zod viem input salt) (compile zod viem input salt)
        compile-ThrowsExpected h

  -- What the validator parses with every action split into a whole, for a known asset, compiles
  -- if the encoder accepts the set of shares of the first action, and publishes its hash.
  pub compile_returns :
      (ir : PolicyIr) (a : AssetValue) (rs : List Recipient) (hash : Text)
      → zod.parse input ≡ ok ir
      → All IsSplit ir.actions
      → get_asset ir.asset ≡ ok a
      → find_transfer ir.actions ≡ some rs
      → compute_commitment viem (map share_distribution rs) salt ≡ ok hash
      → (c : CompiledPolicy) × (compile zod viem input salt ≡ ok c)
        × (c.public_args.commitment ≡ hash)
  unfolding compile
  compile_returns ir a rs hash p s k f m =
      let parsed = (safe_parse-eq-ok_iff zod input ir).1 (p, s) in
      let (t, sealed) =
        canonicalize_total
          (enclave_value (record { salt = salt; shares = map enclave_share rs })) in
      (
        compiled ir salt rs hash t,
        rw (parsed, throws)
            (rw (k, throws) (rw f (assemble_returns viem ir salt rs hash t m sealed))),
        refl,
      )
