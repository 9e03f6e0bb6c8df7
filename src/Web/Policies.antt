-- ===== src/Web/Policies.antt =====
-- apps/web/lib/policies.ts: the policies of an owner, from the vault and the chain. The reads of the
-- chain are the parameter `Reader`: what each call answers, or that it throws. A call is made once for
-- a policy, so that answers that change from call to call are answers of it.
pub mod Listed
use flare_studio.Base.Text.{Text, codes, text_eq}
use flare_studio.Base.{
  ℕ, Bool, true, false, Option, none, some, List, [], ◌∷◌, ◌++◌, Result, ok, err, ◌>>=◌, map, any,
  leb, if◌then◌else◌,
}
use flare_studio.Web.Chain.{chain_id}
use flare_studio.Web.Vault.{VaultEntry, get_entry, all_entries}

pub record HeartbeatConfig : Type 0 where
  pub owner : Text
  pub interval : ℕ
  pub deadline : ℕ
  pub demo_mode : Bool

-- The logs give the policy of each event, where it could be decoded.
pub record Reader : Type 0 where
  pub get_logs : (owner : Text) → Result Text (List (Option Text))
  pub status : (policy : Text) → Result Text ℕ
  pub balance : (policy : Text) → Result Text ℕ
  pub commitment : (policy : Text) → Result Text Text
  pub trigger : (policy : Text) → Result Text Text
  pub kind : (trigger policy : Text) → Result Text Text
  pub deadline_of : (trigger policy : Text) → Result Text ℕ
  pub execute_after : (trigger policy : Text) → Result Text ℕ
  pub configs : (trigger policy : Text) → Result Text HeartbeatConfig

pub record PolicySummary : Type 0 where
  pub address : Text
  pub name : Option Text
  pub status : ℕ
  pub balance : ℕ
  pub trigger : Text
  pub trigger_kind : Text
  pub deadline : Option ℕ
  pub commitment : Text
  pub has_private_half : Bool

unfoldable pub value_or_none {ℓ} : {E : Type ℓ} {A : Type 0} → Result E A → Option A
value_or_none (ok a) = some a
value_or_none (err e) = none

-- A trigger that reverts has no deadline, and neither has one of another kind.
unfoldable pub read_deadline : Reader → (trigger kind policy : Text) → Option ℕ
unfolding value_or_none
read_deadline reader trigger kind policy =
    if text_eq kind (codes "manual-heartbeat")
    then value_or_none (reader.deadline_of trigger policy)
    else if text_eq kind (codes "timestamp")
    then value_or_none (reader.execute_after trigger policy)
    else none

unfoldable pub kind_or_unknown : Result Text Text → Text
kind_or_unknown (ok kind) = kind
kind_or_unknown (err e) = codes "unknown"

-- `entry?.name`, where it is not empty.
unfoldable pub entry_name : Option VaultEntry → Option Text
entry_name none = none
entry_name (some e) = elim e.name [ [] ↦ none | c ∷ cs ↦ some (c ∷ cs) ]

unfoldable pub is_found : Option VaultEntry → Bool
is_found none = false
is_found (some e) = true

-- Of the four reads that are made at once, the error of the first in their order is kept.
unfoldable pub read_policy : Reader → List VaultEntry → Text → Result Text PolicySummary
unfolding kind_or_unknown read_deadline entry_name is_found
read_policy reader vault address = do
  status ← reader.status address
  balance ← reader.balance address
  commitment ← reader.commitment address
  trigger ← reader.trigger address
  let kind = kind_or_unknown (reader.kind trigger address)
  let entry = get_entry address vault
  ok (record {
    address = address;
    name = entry_name entry;
    status = status;
    balance = balance;
    trigger = trigger;
    trigger_kind = kind;
    deadline = read_deadline reader trigger kind address;
    commitment = commitment;
    has_private_half = is_found entry;
  })

-- `addresses.add(a)`, in the order of insertion.
unfoldable pub set_add : Text → List Text → List Text
set_add a set = if any (text_eq a) set then set else set ++ a ∷ []

unfoldable pub set_add_all : List Text → List Text → List Text
unfolding set_add
set_add_all set [] = set
set_add_all set (a ∷ as') = set_add_all (set_add a set) as'

unfoldable pub log_policies : List (Option Text) → List Text
log_policies [] = []
log_policies (none ∷ logs) = log_policies logs
log_policies (some policy ∷ logs) = policy ∷ log_policies logs

-- Logs that cannot be read add nothing.
unfoldable pub logged : Result Text (List (Option Text)) → List Text
unfolding log_policies
logged (ok logs) = log_policies logs
logged (err e) = []

unfoldable pub policy_addresses : Reader → List VaultEntry → (owner : Text) → List Text
unfolding set_add_all logged
policy_addresses reader vault owner =
    set_add_all (set_add_all [] (map (λ (e : VaultEntry). e.policy) (all_entries chain_id vault)))
      (logged (reader.get_logs owner))

unfoldable pub deployed_at : List VaultEntry → Text → ℕ
deployed_at vault policy = elim (get_entry policy vault) [ none ↦ 0 | some e ↦ e.deployed_at ]

-- A policy that cannot be read is left out.
unfoldable pub kept : Result Text PolicySummary → List PolicySummary → List PolicySummary
kept (ok s) later = s ∷ later
kept (err e) later = later

unfoldable pub read_all : Reader → List VaultEntry → List Text → List PolicySummary
unfolding kept
read_all reader vault [] = []
read_all reader vault (a ∷ as') = kept (read_policy reader vault a) (read_all reader vault as')

-- The sort is by the time of deployment, the latest first, and stable.
unfoldable pub insert_summary :
    List VaultEntry → PolicySummary → List PolicySummary → List PolicySummary
unfolding deployed_at
insert_summary vault s [] = s ∷ []
insert_summary vault s (x ∷ xs) =
    let later = insert_summary vault s xs in
    if leb (deployed_at vault x.address) (deployed_at vault s.address)
    then s ∷ x ∷ xs
    else x ∷ later

unfoldable pub sort_summaries : List VaultEntry → List PolicySummary → List PolicySummary
unfolding insert_summary
sort_summaries vault [] = []
sort_summaries vault (s ∷ ss) = insert_summary vault s (sort_summaries vault ss)

unfoldable pub list_policies : Reader → List VaultEntry → (owner : Text) → List PolicySummary
unfolding sort_summaries read_all policy_addresses
list_policies reader vault owner =
    sort_summaries vault (read_all reader vault (policy_addresses reader vault owner))

unfoldable pub read_heartbeat_config : Reader → (trigger policy : Text) → Option HeartbeatConfig
unfolding value_or_none
read_heartbeat_config reader trigger policy = value_or_none (reader.configs trigger policy)
