-- ===== src/Policy/Tests.antt =====
-- Runs of the policy compiler, and its theorems at those runs.
use flare_studio.Base.{length, all, ◌*◌}
use flare_studio.Base.Text.{hex_digit}
use flare_studio.Extension.Encoding.{hex_to_bytes, hex_digits, bytes_to_hex}
use flare_studio.Policy.Payments.{upper, xrpl_memo_data}
use flare_studio.Policy.Payments.Memo.{is_upper_hex_digit, hex_to_bytes-xrpl_memo_data}
use flare_studio.Base.Int.{pos, ◌+ℤ◌, ◌-ℤ◌, mul_div}
use flare_studio.Base.Text.{Text, codes, text_eq, text_eq_iff, to_lower_case}
use flare_studio.Base.Order.{text_lt}
use flare_studio.Base.Decimal.{decimal}
use flare_studio.Base.Value.{Value, bigint, str, obj, field, end}
use flare_studio.Base.{
  ℕ, true, false, Option, none, some, List, [], ◌∷◌, ◌++◌, Result, ok, err, ◌≡◌, ◌≢◌, ◌↔◌, ◌⊎◌,
  refl, sym, inl, inr, Bool-cases, All, arith, map, if◌then◌else◌,
}
use flare_studio.Policy.Assets.{get_asset, own, unknown_asset, object_prototype, fxrp}
use flare_studio.Policy.Assets.Lookup.{Among, get_asset_throws_iff}
use flare_studio.Policy.Schema.{
  manual_heartbeat, Recipient, split_transfer, PolicyIr, Issue, key, index, ShapeParser, shape_ok,
  safe_parse, refine_issues, trigger_ok, condition_ok, action_ok, recipient_ok,
}
use flare_studio.Policy.Schema.Refine.{IsSplit, safe_parse-eq-ok_iff}
use flare_studio.Policy.Canonical.{canonicalize, insert_field}
use flare_studio.Policy.Canonical.Invariance.{in_obj, swapped, canonicalize-Reordered}
use flare_studio.Policy.Canonical.Total.{canonicalize_total}
use flare_studio.Policy.Commitment.{Distribution, Viem, compute_commitment}
use flare_studio.Policy.Compile.{
  CompiledPolicy, CompileError, asset_error, compile, assemble, enclave_share, enclave_value,
}
use flare_studio.Policy.Compile.Laws.{enclave_distribution}
use flare_studio.Policy.Compile.Enclave.{
  IsPayable, compile-enclave_commitment, compile-IsPayable, compile_ignores_labels,
}
use flare_studio.Policy.Compile.Failures.{IsExpected, compile-IsExpected, compile_returns}
use flare_studio.Policy.Shares.{resolve_distributions, resolve_from, share_amount}
use flare_studio.Policy.Shares.Total.{
  total, total-resolve_distributions, IsPaid, resolve_distributions-IsPaid,
}

-- A validator that parses a policy of the right shape to itself.
abbrev pub shape_issue : Issue
shape_issue = record { path = []; message = codes "invalid" }

abbrev pub parse_policy : PolicyIr → Result (List Issue) PolicyIr
parse_policy ir = if shape_ok ir then ok ir else err (shape_issue ∷ [])

pub parse_policy_sound : (v ir : PolicyIr) → parse_policy v ≡ ok ir → shape_ok ir ≡ true
parse_policy_sound v ir h = elim (Bool-cases (shape_ok v)) [
  | inl fits ↦ let same : v ≡ ir = ground arith in rw (← same) fits
  | inr other ↦ let bad : parse_policy v ≡ err (shape_issue ∷ []) = rw other in cc
]

pub parse_policy_fails : (v : PolicyIr) (is : List Issue) → parse_policy v ≡ err is → is ≢ []
parse_policy_fails v is h = ground arith

abbrev pub zod : ShapeParser PolicyIr
zod = record {
  parse = parse_policy;
  parse_sound = parse_policy_sound;
  parse_fails = parse_policy_fails;
}

-- An encoder that writes the addresses and the salt one after the other, and a hash that keeps all.
abbrev pub encoded : List Distribution → Text → List ℕ
encoded [] salt = salt
encoded (d ∷ ds) salt = d.recipient ++ encoded ds salt

abbrev pub viem : Viem
viem = record {
  encode_abi_parameters = λ ds salt. ok (encoded ds salt);
  keccak256 = λ bytes. bytes;
}

abbrev pub alice : Text
alice = codes "0x00000000000000000000000000000000000000aA"

abbrev pub bob : Text
bob = codes "0x00000000000000000000000000000000000000bb"

abbrev pub sixty_forty : Option Text → List Recipient
sixty_forty label =
    record { address = alice; share_bps = 6_000; label = label }
    ∷ record { address = bob; share_bps = 4_000; label = none }
    ∷ []

abbrev pub policy : Text → Text → List Recipient → PolicyIr
policy name asset recipients = record {
  version = 1;
  name = name;
  asset = asset;
  trigger = manual_heartbeat 86_400 false;
  conditions = [];
  actions = split_transfer recipients ∷ [];
}

policy_run : Unit {0}
unfolding compile safe_parse shape_ok action_ok recipient_ok trigger_ok condition_ok refine_issues
    get_asset assemble enclave_value canonicalize text_lt insert_field decimal text_eq to_lower_case
    compute_commitment
policy_run = tt

abbrev pub sample : PolicyIr
sample = policy (codes "savings") (codes "FXRP") (sixty_forty (some (codes "Alice")))

abbrev renamed : PolicyIr
renamed = policy (codes "holiday") (codes "FXRP") (sixty_forty none)

abbrev pub salt : Text
salt = codes "0x01"

abbrev pub sealed_text : Text
sealed_text =
    codes "{\"salt\":\"0x01\",\"shares\":["
    ++ (codes "{\"recipient\":\"0x00000000000000000000000000000000000000aA\",\"shareBps\":6000},"
        ++ codes
            "{\"recipient\":\"0x00000000000000000000000000000000000000bb\",\"shareBps\":4000}]}")

abbrev pub compiled_as : PolicyIr → List Recipient → CompiledPolicy
compiled_as ir recipients = record {
  ir = ir;
  public_args = record {
    asset_symbol = codes "FXRP";
    commitment = alice ++ (bob ++ salt);
    trigger = manual_heartbeat 86_400 false;
    conditions = [];
  };
  private_config = record { version = 1; name = ir.name; recipients = recipients };
  enclave_config = record {
    salt = salt;
    shares =
        record { recipient = alice; share_bps = 6_000 }
        ∷ record { recipient = bob; share_bps = 4_000 }
        ∷ [];
  };
  plaintext = some sealed_text;
}

abbrev pub sample_compiled : CompiledPolicy
sample_compiled = compiled_as sample (sixty_forty (some (codes "Alice")))

abbrev renamed_compiled : CompiledPolicy
renamed_compiled = compiled_as renamed (sixty_forty none)

pub compile-sample : compile zod viem sample salt ≡ ok sample_compiled
unfolding policy_run
compile-sample = refl

compile-renamed : compile zod viem renamed salt ≡ ok renamed_compiled
unfolding policy_run
compile-renamed = refl

compile-enclave_commitment_example :
    compute_commitment viem
      (map enclave_distribution sample_compiled.enclave_config.shares)
      sample_compiled.enclave_config.salt
    ≡ ok sample_compiled.public_args.commitment
compile-enclave_commitment_example =
    compile-enclave_commitment zod viem sample salt sample_compiled compile-sample

compile-IsPayable_example : IsPayable sample_compiled.enclave_config.shares
compile-IsPayable_example = compile-IsPayable zod viem sample salt sample_compiled compile-sample

compile_ignores_labels_example :
    (sample_compiled.enclave_config ≡ renamed_compiled.enclave_config)
    × (sample_compiled.plaintext ≡ renamed_compiled.plaintext)
    × (sample_compiled.public_args.commitment ≡ renamed_compiled.public_args.commitment)
    × (sample_compiled.public_args ≡ record {
      asset_symbol = codes "FXRP";
      commitment = renamed_compiled.public_args.commitment;
      trigger = sample.trigger;
      conditions = [];
    })
compile_ignores_labels_example =
    compile_ignores_labels zod viem sample renamed salt sample_compiled renamed_compiled
      compile-sample compile-renamed (unfold enclave_share in refl)

-- An asset that the registry does not hold.
abbrev unlisted : PolicyIr
unlisted = policy (codes "savings") (codes "FDOGE") (sixty_forty none)

abbrev unlisted_error : CompileError
unlisted_error = asset_error (unknown_asset (codes "FDOGE") (codes "FXRP" ∷ codes "FBTC" ∷ []))

compile-unlisted : compile zod viem unlisted salt ≡ err unlisted_error
unfolding policy_run
compile-unlisted = refl

compile-IsExpected_example : IsExpected zod viem unlisted salt unlisted_error
compile-IsExpected_example =
    compile-IsExpected zod viem unlisted salt unlisted_error compile-unlisted

-- The name of a property that every object has passes for an asset.
abbrev inherited_asset : PolicyIr
inherited_asset = policy (codes "savings") (codes "toString") (sixty_forty none)

inherited_asset_compiles : (c : CompiledPolicy) × (compile zod viem inherited_asset salt ≡ ok c)
unfolding policy_run
inherited_asset_compiles = (_, refl)

-- Texts that the comparison tells apart.
ne_of_text_eq : (a b : Text) → text_eq a b ≡ false → a ≢ b
ne_of_text_eq a b h e = let same = (text_eq_iff a b).1 e in cc

pub alice-ne-bob : to_lower_case alice ≢ to_lower_case bob
unfolding text_eq to_lower_case
alice-ne-bob = ne_of_text_eq (to_lower_case alice) (to_lower_case bob) refl

sample-IsSplit : All IsSplit sample.actions
sample-IsSplit = ((omega arith, (tt, (((λ e. alice-ne-bob (sym e)), tt), tt))), tt)

compile_returns_example :
    (c : CompiledPolicy) × (compile zod viem sample salt ≡ ok c)
    × (c.public_args.commitment ≡ alice ++ (bob ++ salt))
unfolding policy_run
compile_returns_example =
    compile_returns zod viem sample salt sample (own fxrp) (sixty_forty (some (codes "Alice")))
      (alice ++ (bob ++ salt)) refl sample-IsSplit refl refl refl

-- The same address twice, in different case.
abbrev doubled : PolicyIr
doubled = policy (codes "savings") (codes "FXRP") (
    record { address = alice; share_bps = 6_000; label = none }
    ∷ record { address = to_lower_case alice; share_bps = 4_000; label = none }
    ∷ [])

safe_parse-doubled :
    safe_parse zod doubled
    ≡ err (
        record {
          path =
              key (codes "actions")
              ∷ index 0
              ∷ key (codes "recipients")
              ∷ index 1
              ∷ key (codes "address")
              ∷ [];
          message = codes "duplicate recipient: combine into a single share instead";
        }
        ∷ [])
unfolding policy_run
safe_parse-doubled = refl

safe_parse-eq-ok_iff_example :
    (safe_parse zod doubled ≡ ok doubled)
    ↔ ((parse_policy doubled ≡ ok doubled) × All IsSplit doubled.actions)
safe_parse-eq-ok_iff_example = safe_parse-eq-ok_iff zod doubled doubled

get_asset_throws_iff_example :
    (get_asset (codes "toString")
      ≡ err (unknown_asset (codes "toString") (codes "FXRP" ∷ codes "FBTC" ∷ [])))
    ↔ ¬ (
        (codes "FXRP" ≡ codes "toString")
        ⊎ (codes "FBTC" ≡ codes "toString")
        ⊎ Among (codes "toString") object_prototype)
get_asset_throws_iff_example = get_asset_throws_iff (codes "toString")

abbrev written_ab : Value
written_ab = obj (field (codes "a") (bigint (pos 1)) (field (codes "b") (str (codes "x")) end))

abbrev written_ba : Value
written_ba = obj (field (codes "b") (str (codes "x")) (field (codes "a") (bigint (pos 1)) end))

canonicalize_written : canonicalize written_ba ≡ ok (some (codes "{\"a\":\"1\",\"b\":\"x\"}"))
unfolding policy_run
canonicalize_written = refl

a-ne-b : codes "a" ≢ codes "b"
unfolding text_eq
a-ne-b = ne_of_text_eq (codes "a") (codes "b") refl

canonicalize-Reordered_example : canonicalize written_ab ≡ canonicalize written_ba
canonicalize-Reordered_example = canonicalize-Reordered (in_obj (swapped a-ne-b))

canonicalize_total_example : (t : Option Text) × (canonicalize written_ab ≡ ok t)
canonicalize_total_example = canonicalize_total written_ab

resolve_run : Unit {0}
unfolding resolve_distributions resolve_from share_amount mul_div ◌-ℤ◌ ◌+ℤ◌
resolve_run = tt

resolve_uneven :
    resolve_distributions sample_compiled.private_config (pos 101)
    ≡ record { recipient = alice; amount = pos 60 }
      ∷ record { recipient = bob; amount = pos 41 }
      ∷ []
unfolding resolve_run
resolve_uneven = refl

total-resolve_distributions_example :
    total (resolve_distributions sample_compiled.private_config (pos 101)) ≡ pos 101
total-resolve_distributions_example =
    total-resolve_distributions sample_compiled.private_config (pos 101) (λ e. cc)

resolve_distributions-IsPaid_example :
    IsPaid 101 0
      (resolve_distributions sample_compiled.private_config (pos 101))
      (sixty_forty (some (codes "Alice")))
resolve_distributions-IsPaid_example =
    resolve_distributions-IsPaid sample_compiled.private_config 101 (omega arith)

memo : xrpl_memo_data (bytes_to_hex (171 ∷ 1 ∷ [])) ≡ codes "AB01"
unfolding xrpl_memo_data upper bytes_to_hex hex_digits hex_digit
memo = refl

hex_to_bytes-xrpl_memo_data_example :
    (length (xrpl_memo_data (bytes_to_hex (171 ∷ 1 ∷ []))) ≡ length {A = ℕ} (171 ∷ 1 ∷ []) * 2)
    × (all is_upper_hex_digit (xrpl_memo_data (bytes_to_hex (171 ∷ 1 ∷ []))) ≡ true)
    × (hex_to_bytes (str (codes "0x" ++ xrpl_memo_data (bytes_to_hex (171 ∷ 1 ∷ []))))
        ≡ ok (171 ∷ 1 ∷ []))
hex_to_bytes-xrpl_memo_data_example =
    hex_to_bytes-xrpl_memo_data 171 (1 ∷ []) (omega arith, (omega arith, tt))
