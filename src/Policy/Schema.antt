-- ===== src/Policy/Schema.antt =====
-- packages/policy/src/schema.ts: the policy representation and its validation. zod, the validator,
-- is not part of the repository: what it parses is a parameter of `safe_parse`, and what the source
-- asks of it is `shape_ok`. The refinement of the parsed policy is the source's own.
pub mod Refine
use flare_studio.Base.Text.{Text, codes, text_eq, to_lower_case, is_digit, is_hex_digit}
use flare_studio.Base.Decimal.{decimal}
use flare_studio.Base.{
  ℕ, zero, suc, ◌+◌, Bool, true, false, ◌&&◌, ◌||◌, Option, none, some, List, [], ◌∷◌, ◌++◌, ◌≡◌,
  ◌≢◌, Result, ok, err, any, all, length, ltb, leb, ◌==◌, if◌then◌else◌,
}

pub data Trigger : Type 0 where
  manual_heartbeat : (interval_seconds : ℕ) (demo_mode : Bool) → Trigger
  chain_proof_of_life :
      (interval_seconds : ℕ) (source_id destination_address minimum_amount : Text) → Trigger
  timestamp : (execute_after : ℕ) → Trigger

-- `minimumUsd` is kept as the numeral that JavaScript prints for it, with the test of its sign.
pub record Price : Type 0 where
  pub numeral : Text
  pub is_positive : Bool

pub data Condition : Type 0 where
  price_above : (feed_id : Text) (minimum_usd : Price) → Condition

pub record Recipient : Type 0 where
  pub address : Text
  pub share_bps : ℕ
  pub label : Option Text

pub data Action : Type 0 where
  split_transfer : (recipients : List Recipient) → Action

pub record PolicyIr : Type 0 where
  pub version : ℕ
  pub name : Text
  pub asset : Text
  pub trigger : Trigger
  pub conditions : List Condition
  pub actions : List Action

-- /^0x[0-9a-fA-F]{40}$/
unfoldable pub is_address : Text → Bool
unfolding is_hex_digit
is_address (z ∷ x ∷ digits) =
    z == b'0' && x == b'x' && length digits == 40 && all is_hex_digit digits
is_address _ = false

-- /^[1-9][0-9]*$/
unfoldable pub is_amount : Text → Bool
unfolding is_digit
is_amount [] = false
is_amount (c ∷ cs) = leb b'1' c && leb c b'9' && all is_digit cs

unfoldable pub trigger_ok : Trigger → Bool
unfolding is_amount
trigger_ok (manual_heartbeat interval demo) = ltb 0 interval
trigger_ok (chain_proof_of_life interval source destination minimum) =
    ltb 0 interval && is_amount minimum
trigger_ok (timestamp execute_after) = ltb 0 execute_after

unfoldable pub condition_ok : Condition → Bool
condition_ok (price_above feed_id minimum) = minimum.is_positive

unfoldable pub label_ok : Option Text → Bool
label_ok none = true
label_ok (some label) = leb (length label) 120

unfoldable pub recipient_ok : Recipient → Bool
unfolding is_address label_ok
recipient_ok r =
    is_address r.address && leb 1 r.share_bps && leb r.share_bps 10_000 && label_ok r.label

unfoldable pub action_ok : Action → Bool
action_ok (split_transfer recipients) = leb 1 (length recipients) && all recipient_ok recipients

-- The object schema, before its refinement.
unfoldable pub shape_ok : PolicyIr → Bool
shape_ok ir =
    ir.version == 1
    && leb 1 (length ir.name)
    && leb (length ir.name) 120
    && trigger_ok ir.trigger
    && all condition_ok ir.conditions
    && leb 1 (length ir.actions)
    && all action_ok ir.actions

pub data PathKey : Type 0 where
  key : Text → PathKey
  index : ℕ → PathKey

pub record Issue : Type 0 where
  pub path : List PathKey
  pub message : Text

-- `action.recipients.reduce((sum, r) => sum + r.shareBps, 0)`, from `sum`.
unfoldable pub share_total : ℕ → List Recipient → ℕ
share_total sum [] = sum
share_total sum (r ∷ rs) = share_total (sum + r.share_bps) rs

abbrev total_issue : ℕ → ℕ → Issue
total_issue i total = record {
  path = key (codes "actions") ∷ index i ∷ key (codes "recipients") ∷ [];
  message = codes "shares must total 100% (10000 bps), got " ++ decimal total;
}

abbrev duplicate_issue : ℕ → ℕ → Issue
duplicate_issue i j = record {
  path =
      key (codes "actions")
      ∷ index i
      ∷ key (codes "recipients")
      ∷ index j
      ∷ key (codes "address")
      ∷ [];
  message = codes "duplicate recipient: combine into a single share instead";
}

-- The loop over the recipients of action `i`, from index `j`, with the set `seen`.
unfoldable pub duplicate_issues : ℕ → ℕ → List Text → List Recipient → List Issue
duplicate_issues i j seen [] = []
duplicate_issues i j seen (r ∷ rs) =
    let rest = duplicate_issues i (j + 1) (to_lower_case r.address ∷ seen) rs in
    if any (text_eq (to_lower_case r.address)) seen then duplicate_issue i j ∷ rest else rest

-- The loop of `superRefine` over the actions, from index `i`: the issues in the order added.
unfoldable pub refine_issues : ℕ → List Action → List Issue
unfolding share_total duplicate_issues
refine_issues i [] = []
refine_issues i (split_transfer recipients ∷ actions) =
    (if share_total 0 recipients == 10_000
      then []
      else total_issue i (share_total 0 recipients) ∷ [])
    ++ (duplicate_issues i 0 [] recipients ++ refine_issues (i + 1) actions)

-- zod's parse of the object schema: a policy of that shape, or the issues that it found.
pub record ShapeParser (Input : Type 0) : Type 0 where
  pub parse : Input → Result (List Issue) PolicyIr
  pub parse_sound : (v : Input) (ir : PolicyIr) → parse v ≡ ok ir → shape_ok ir ≡ true
  pub parse_fails : (v : Input) (is : List Issue) → parse v ≡ err is → is ≢ []

-- `policyIrSchema.safeParse`: zod runs the refinement on a policy that has the shape, and succeeds
-- if that added no issue. On a policy that has the types but not the bounds of the shape, zod runs the
-- refinement as well, and its issues follow those of the shape: they are left out of the list here,
-- which changes neither whether the policy passes nor which issue comes first.
unfoldable pub safe_parse :
    {Input : Type 0} → ShapeParser Input → Input → Result (List Issue) PolicyIr
safe_parse zod input = elim (zod.parse input) [
  | err is ↦ err is
  | ok ir ↦ elim (refine_issues 0 ir.actions) [ [] ↦ ok ir | i ∷ is ↦ err (i ∷ is) ]
]
