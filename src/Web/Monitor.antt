-- ===== src/Web/Monitor.antt =====
-- apps/web/app/policies/[address]/page.tsx: what the page of a policy does. Its state is passed along,
-- with the world behind the wallet and the chain; viem's clients and the reads of the chain are
-- parameters. The views themselves are not modelled.
pub mod Sending
pub mod Funding
pub mod Tests
use flare_studio.Base.Int.{ℤ, pos, negsuc}
use flare_studio.Base.Text.{Text, codes, text_eq}
use flare_studio.Base.{
  ℕ, ◌+◌, Bool, true, false, ◌&&◌, ◌||◌, not, Option, none, some, List, [], ◌∷◌, ◌++◌, Result, ok,
  err, ◌▷◌, leb, ltb, ◌==◌, if◌then◌else◌,
}
use flare_studio.Web.Chain.{Addresses, enclave_handoff_configured}
use flare_studio.Web.Thrown.{Thrown, wallet_error_message}
use flare_studio.Web.Vault.{VaultEntry, Handoff, get_entry, save_entry}
use flare_studio.Web.StorePolicy.{Clients, HandoffResult, store_policy_on_chain}
use flare_studio.Web.Policies.{
  Reader, HeartbeatConfig, PolicySummary, read_policy, read_heartbeat_config,
}

-- The contract calls of the page, each with the address of the contract first.
pub data PolicyCall : Type 0 where
  heartbeat : (trigger policy : Text) → PolicyCall
  simulate_inactivity : (trigger policy : Text) → PolicyCall
  approve : (token spender : Text) (amount : ℕ) → PolicyCall
  deposit : (policy : Text) (amount : ℕ) → PolicyCall
  withdraw : (policy : Text) (amount : ℕ) → PolicyCall
  cancel : (policy : Text) → PolicyCall

-- viem's clients, the reads of the chain in a state of the world, and the clock in milliseconds.
-- Getting the wallet's client throws without an injected wallet, and so does the call then.
-- `store` is `localStorage.setItem` with the entries, which throws if the storage does not take them.
pub record PageEnv (W : Type 0) : Type 0 where
  pub write_contract : PolicyCall → W → Result Thrown Text × W
  pub wait_for_receipt : Text → W → Result Thrown (Unit {0}) × W
  pub allowance : (owner spender : Text) → W → Result Thrown ℕ × W
  pub reader : W → Reader
  pub clients : Clients W
  pub addresses : Addresses
  pub date_now : W → ℕ
  pub store : List VaultEntry → W → Result Thrown (Unit {0})

pub record Page (W : Type 0) : Type 0 where
  pub world : W
  pub vault : List VaultEntry
  pub policy : Option PolicySummary
  pub entry : Option VaultEntry
  pub demo_mode : Bool
  pub error : Option Text
  pub busy : Option Text
  pub last_tx : Option Text
  pub calls : List PolicyCall

unfoldable pub is_demo : Option HeartbeatConfig → Bool
is_demo none = false
is_demo (some config) = config.demo_mode

module _ {W : Type 0} (env : PageEnv W) (address : Text) where
  -- The policy of an answer, with the demo mode if its trigger has one.
  unfoldable pub show_policy : Result Text PolicySummary → Page W → Page W
  unfolding is_demo
  show_policy (err e) page = record page { error = some e }
  show_policy (ok summary) page =
      if text_eq summary.trigger_kind (codes "manual-heartbeat")
      then record page {
        policy = some summary;
        demo_mode = is_demo (read_heartbeat_config (env.reader page.world) summary.trigger address);
      }
      else record page { policy = some summary }

  unfoldable pub refresh : Page W → Page W
  unfolding show_policy
  refresh page = show_policy (read_policy (env.reader page.world) page.vault address) page

  -- When the page is opened.
  unfoldable pub open_page : Page W → Page W
  unfolding refresh
  open_page page = refresh (record page { entry = get_entry address page.vault })

  -- A call of the wallet's client, which is recorded.
  abbrev pub write : PolicyCall → Page W → Result Thrown Text × Page W
  write call page =
      let (sent, w) = env.write_contract call page.world in
      (sent, record page { world = w; calls = page.calls ++ call ∷ [] })

  -- The receipt is awaited; its status is not read.
  abbrev pub await : Text → Page W → Result Thrown (Unit {0}) × Page W
  await hash page =
      let (receipt, w) = env.wait_for_receipt hash page.world in
      (receipt, record page { world = w })

  -- The body of the `try` of `send`.
  unfoldable pub try_send :
      (Page W → Result Thrown Text × Page W) → Page W → Result Thrown (Unit {0}) × Page W
  unfolding refresh
  try_send run page = run page ▷ λ hash sent.
      await hash (record sent { last_tx = some hash }) ▷ λ _ mined. (ok tt, refresh mined)

  unfoldable pub with_failure : Result Thrown (Unit {0}) × Page W → Page W
  with_failure (ok done, page) = page
  with_failure (err e, page) = record page { error = some (wallet_error_message e) }

  -- Every write of the page goes through this.
  unfoldable pub send : (label : Text) → (Page W → Result Thrown Text × Page W) → Page W → Page W
  unfolding try_send with_failure
  send label run page =
      record (with_failure (try_send run (record page { busy = some label; error = none }))) {
        busy = none;
      }

  -- The two buttons on the trigger: nothing is done without an account and a policy.
  unfoldable pub check_in : (account : Option Text) → Page W → Page W
  unfolding send
  check_in none page = page
  check_in (some account) page = elim page.policy [
    | none ↦ page
    | some policy ↦ send (codes "check-in") (write (heartbeat policy.trigger address)) page
  ]

  unfoldable pub press_simulate : (account : Option Text) → Page W → Page W
  unfolding send
  press_simulate none page = page
  press_simulate (some account) page = elim page.policy [
    | none ↦ page
    | some policy ↦
        send (codes "simulate") (write (simulate_inactivity policy.trigger address)) page
  ]

  -- The approval of a deposit, unless the allowance is enough.
  unfoldable pub ensure_allowance :
      (policy : Text) (amount allowed : ℕ) → Page W → Result Thrown (Unit {0}) × Page W
  ensure_allowance policy amount allowed page =
      if ltb allowed amount
      then (write (approve env.addresses.fxrp policy amount) page ▷ λ approval sent.
          await approval sent)
      else (ok tt, page)

  unfoldable pub read_allowance : (account policy : Text) → Page W → Result Thrown ℕ × Page W
  read_allowance account policy page =
      let (allowed, w) = env.allowance account policy page.world in
      (allowed, record page { world = w })

  unfoldable pub run_deposit :
      (account policy : Text) (amount : ℕ) → Page W → Result Thrown Text × Page W
  unfolding read_allowance ensure_allowance
  run_deposit account policy amount page = read_allowance account policy page ▷ λ allowed read.
      ensure_allowance policy amount allowed read ▷ λ _ approved.
      write (deposit policy amount) approved

  -- A usable amount: there is an account, no other write is busy, and it is above zero.
  unfoldable pub usable_amount :
      (account : Option Text) → Option ℤ → (busy : Option Text) → Option (Text × ℕ)
  usable_amount (some account) (some (pos n)) none = if n == 0 then none else some (account, n)
  usable_amount _ _ _ = none

  unfoldable pub press_deposit :
      (account : Option Text) → Option ℤ → (policy : PolicySummary) → Page W → Page W
  unfolding usable_amount send run_deposit
  press_deposit account parsed policy page = elim (usable_amount account parsed page.busy) [
    | none ↦ page
    | some (from, amount) ↦ send (codes "deposit") (run_deposit from policy.address amount) page
  ]

  -- The button is disabled above the balance.
  unfoldable pub press_withdraw :
      (account : Option Text) → Option ℤ → (policy : PolicySummary) → Page W → Page W
  unfolding usable_amount send
  press_withdraw account parsed policy page = elim (usable_amount account parsed page.busy) [
    | none ↦ page
    | some (from, amount) ↦
        if ltb policy.balance amount
        then page
        else send (codes "withdraw") (write (withdraw policy.address amount)) page
  ]

  -- After the write, `onDone` reads the policy again.
  unfoldable pub press_cancel : (account : Option Text) → (policy : PolicySummary) → Page W → Page W
  unfolding send refresh
  press_cancel none policy page = page
  press_cancel (some account) policy page = elim page.busy [
    | some label ↦ page
    | none ↦ refresh (send (codes "cancel") (write (cancel policy.address)) page)
  ]

  -- What `saveEntry` made of the vault, if the storage took the entries, and the page after it.
  unfoldable pub keep_stored :
      (tx : Text)
      → List VaultEntry
      → Result Thrown (Unit {0})
      → Page W
      → Result Thrown Text × Page W
  keep_stored tx saved (err e) page = (err e, page)
  keep_stored tx saved (ok u) page =
      (ok tx, record page { vault = saved; entry = get_entry address saved })

  -- The result of a hand-off: the entry is saved with it, and shown.
  unfoldable pub keep_handoff :
      VaultEntry → Result Thrown HandoffResult → Page W → Result Thrown Text × Page W
  unfolding keep_stored
  keep_handoff entry (err e) page = (err e, page)
  keep_handoff entry (ok handed) page =
      let stored : Handoff = record {
        instruction_id = handed.instruction_id;
        tx_hash = handed.tx_hash;
        at = env.date_now page.world;
      } in
      let saved = save_entry (record entry { handoff = some stored }) page.vault in
      keep_stored handed.tx_hash saved (env.store saved page.world) page

  unfoldable pub run_handoff :
      VaultEntry → (ciphertext : Text) → Page W → Result Thrown Text × Page W
  unfolding keep_handoff
  run_handoff entry ciphertext page =
      let (result, w, calls) =
        store_policy_on_chain env.clients env.addresses entry.policy ciphertext page.world in
      keep_handoff entry result (record page { world = w })

  -- The text that the button "Send to enclave" hands off, where there is the button.
  unfoldable pub handoff_button : VaultEntry → Option Text
  handoff_button entry = elim entry.handoff [
    | some done ↦ none
    | none ↦
        if enclave_handoff_configured env.addresses
        then elim entry.ciphertext [ some (c ∷ cs) ↦ some (c ∷ cs) | _ ↦ none ]
        else none
  ]

  unfoldable pub press_handoff : (account : Option Text) → VaultEntry → Page W → Page W
  unfolding send run_handoff handoff_button
  press_handoff none entry page = page
  press_handoff (some account) entry page = elim page.busy [
    | some label ↦ page
    | none ↦ elim (handoff_button entry) [
      | none ↦ page
      | some ciphertext ↦ send (codes "handoff") (run_handoff entry ciphertext) page
    ]
  ]

-- `PolicyStatus` of apps/web/lib/abi.ts, and what the badge says of it.
unfoldable pub status_name : ℕ → Text
status_name n =
    if n == 0
    then codes "Active"
    else if n == 1
    then codes "Triggered"
    else if n == 2
    then codes "Executed"
    else if n == 3
    then codes "Cancelled"
    else codes "Unknown"

unfoldable pub badge_text : Text → Text
badge_text status =
    if text_eq status (codes "Triggered")
    then codes "Ready to distribute"
    else if text_eq status (codes "Executed")
    then codes "Distributed"
    else status
