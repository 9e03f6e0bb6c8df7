-- ===== src/Web/Vault.antt =====
-- apps/web/lib/vault.ts: the browser's copy of what the chain does not know. The store is the list
-- that `read` returns; that `localStorage` returns what it was given, through JSON, is the browser's.
pub mod Entries
pub mod Storage
use flare_studio.Base.Text.{Text, text_eq, to_lower_case}
use flare_studio.Base.{
  ℕ, Bool, not, Option, none, some, List, [], ◌∷◌, ◌++◌, find?, keep, leb, ◌==◌, if◌then◌else◌,
}
use flare_studio.Policy.Compile.{PrivateConfig}

pub record Handoff : Type 0 where
  pub instruction_id : Text
  pub tx_hash : Text
  pub at : ℕ

pub record VaultEntry : Type 0 where
  pub policy : Text
  pub chain_id : ℕ
  pub name : Text
  pub template_id : Text
  pub asset_symbol : Text
  pub salt : Text
  pub private_config : PrivateConfig
  pub ciphertext : Option Text
  pub handoff : Option Handoff
  pub trigger_kind : Text
  pub trigger_address : Text
  pub deploy_tx : Text
  pub deployed_at : ℕ

-- `e.policy.toLowerCase() === wanted`
unfoldable pub is_for : Text → VaultEntry → Bool
is_for wanted e = text_eq (to_lower_case e.policy) wanted

unfoldable pub get_entry : Text → List VaultEntry → Option VaultEntry
unfolding is_for
get_entry policy entries = find? (is_for (to_lower_case policy)) entries

unfoldable pub save_entry : VaultEntry → List VaultEntry → List VaultEntry
unfolding is_for
save_entry entry entries =
    keep (λ e. not (is_for (to_lower_case entry.policy) e)) entries ++ entry ∷ []

-- `sort` by `deployedAt`, the latest first, is stable: an entry stays before those that came after
-- it and are as late.
unfoldable pub insert_entry : VaultEntry → List VaultEntry → List VaultEntry
insert_entry e [] = e ∷ []
insert_entry e (x ∷ xs) =
    let rest = insert_entry e xs in if leb x.deployed_at e.deployed_at then e ∷ x ∷ xs else x ∷ rest

unfoldable pub sort_entries : List VaultEntry → List VaultEntry
unfolding insert_entry
sort_entries [] = []
sort_entries (e ∷ es) = insert_entry e (sort_entries es)

unfoldable pub all_entries : ℕ → List VaultEntry → List VaultEntry
unfolding sort_entries
all_entries chain_id entries = sort_entries (keep (λ e. e.chain_id == chain_id) entries)
