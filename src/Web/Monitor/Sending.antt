-- ===== src/Web/Monitor/Sending.antt =====
-- How a write of the page ends, and what a hand-off leaves in the vault.
use flare_studio.Base.Text.{Text}
use flare_studio.Base.{List, ap}
use flare_studio.Base.{none, some, ◌≡◌, arith, refl, ◌∙◌, Result, ok, err, ◌▷◌}
use flare_studio.Web.Thrown.{Thrown, message}
use flare_studio.Web.Vault.{VaultEntry, Handoff, get_entry}
use flare_studio.Web.Vault.Entries.{SamePolicy, get_entry-save_entry}
use flare_studio.Web.StorePolicy.{HandoffResult, store_policy_on_chain}
use flare_studio.Web.Policies.{PolicySummary, read_policy}
use flare_studio.Web.Monitor.{
  PageEnv, Page, show_policy, refresh, await, try_send, with_failure, send, keep_handoff,
  keep_stored, run_handoff,
}

module _ {W : Type 0} (env : PageEnv W) (address : Text) where
  -- With the write under way, and with its transaction sent.
  abbrev pub started : Text → Page W → Page W
  started label page = record page { busy = some label; error = none }

  abbrev pub sent_page : Text → Page W → Page W
  sent_page hash page = record page { last_tx = some hash }

  -- The end of a write, by what it returned or threw and, once it was sent, by the wait for its receipt.
  abbrev pub IsEnded :
      Result Thrown Text → Result Thrown (Unit {0}) → (waited ended : Page W) → Type 0
  IsEnded (err e) receipt waited ended = (ended.busy ≡ none) × (ended.error ≡ some (message e))
  IsEnded (ok hash) (err e) waited ended =
      (ended.busy ≡ none) × (ended.error ≡ some (message e)) × (ended.last_tx ≡ some hash)
  IsEnded (ok hash) (ok done) waited ended =
      (ended.last_tx ≡ some hash) × (ended ≡ record (refresh env address waited) { busy = none })

  show_policy-last_tx :
      (r : Result Text PolicySummary) (page : Page W)
      → (show_policy env address r page).last_tx ≡ page.last_tx
  unfolding show_policy
  show_policy-last_tx (err e) page = refl
  show_policy-last_tx (ok summary) page = ground arith

  refresh-last_tx : (page : Page W) → (refresh env address page).last_tx ≡ page.last_tx
  unfolding refresh
  refresh-last_tx page =
      show_policy-last_tx (read_policy (env.reader page.world) page.vault address) page

  sent-IsEnded :
      (hash : Text) (page : Page W) (r : Result Thrown (Unit {0}) × Page W)
      → r.1.last_tx ≡ some hash
      → IsEnded
          (ok hash)
          r.0
          r.1
          (record (with_failure env address (r ▷ λ _ mined. (ok tt, refresh env address mined))) {
            busy = none;
          })
  unfolding with_failure
  sent-IsEnded hash page (ok done, waited) h = (refresh-last_tx waited ∙ h, refl)
  sent-IsEnded hash page (err e, waited) h = (refl, refl, h)

  -- The wait for the receipt of what was sent.
  abbrev pub receipt_of : Result Thrown Text × Page W → Result Thrown (Unit {0}) × Page W
  receipt_of (ok hash, page) = await env address hash (sent_page hash page)
  receipt_of (err e, page) = (ok tt, page)

  run-IsEnded :
      (r : Result Thrown Text × Page W)
      → IsEnded r.0
          (receipt_of r).0
          (receipt_of r).1
          (record (with_failure env address (
            r ▷ λ hash sent. await env address hash (sent_page hash sent) ▷ λ _ mined.
            (ok tt, refresh env address mined))) { busy = none })
  unfolding with_failure
  run-IsEnded (err e, page) = (refl, refl)
  run-IsEnded (ok hash, page) =
      sent-IsEnded hash page (await env address hash (sent_page hash page)) refl

  -- Every write of the page ends with nothing busy, whatever it does. If it threw, or the wait for its
  -- receipt did, the message of that is shown; from the moment it is sent, its transaction is the last
  -- one shown; and after the receipt the policy is read again.
  pub send-IsEnded :
      (label : Text) (run : Page W → Result Thrown Text × Page W) (page : Page W)
      → IsEnded
          (run (started label page)).0
          (receipt_of (run (started label page))).0
          (receipt_of (run (started label page))).1
          (send env address label run page)
  unfolding send try_send
  send-IsEnded label run page = run-IsEnded (run (started label page))

  -- What a hand-off leaves: the entry with the hand-off of this transaction, in the vault and shown.
  abbrev pub IsHanded : Text → VaultEntry → Page W → Type 0
  IsHanded tx entry page =
      (stored : Handoff) × (stored.tx_hash ≡ tx)
      × (get_entry entry.policy page.vault ≡ some (record entry { handoff = some stored }))
      × (page.entry ≡ some (record entry { handoff = some stored }))

  keep_stored-ok :
      (tx tx' : Text) (saved : List VaultEntry) (r : Result Thrown (Unit {0})) (page : Page W)
      → (keep_stored env address tx saved r page).0 ≡ ok tx'
      → (tx ≡ tx')
        × ((keep_stored env address tx saved r page).1.vault ≡ saved)
        × ((keep_stored env address tx saved r page).1.entry ≡ get_entry address saved)
  unfolding keep_stored
  keep_stored-ok tx tx' saved (err e) page h = cc
  keep_stored-ok tx tx' saved (ok u) page h = (cc h, refl, refl)

  keep_handoff-IsHanded :
      (entry : VaultEntry) (tx : Text) (page : Page W) (r : Result Thrown HandoffResult)
      → SamePolicy address entry.policy
      → (keep_handoff env address entry r page).0 ≡ ok tx
      → IsHanded tx entry (keep_handoff env address entry r page).1
  unfolding keep_handoff
  keep_handoff-IsHanded entry tx page (err e) same h = cc
  keep_handoff-IsHanded entry tx page (ok handed) same h =
      let (hash, vault, shown) = keep_stored-ok _ tx _ (env.store _ page.world) page h in
      (
        _,
        hash,
        ap (get_entry entry.policy) vault ∙ get_entry-save_entry _ entry.policy page.vault refl,
        shown ∙ get_entry-save_entry _ address page.vault same,
      )

  -- When the hand-off from the page of a policy returned a transaction, the vault holds the entry of the
  -- policy with the hand-off of just that transaction, whatever it held before, and the page shows it.
  pub run_handoff-IsHanded :
      (entry : VaultEntry) (ciphertext tx : Text) (page : Page W)
      → SamePolicy address entry.policy
      → (run_handoff env address entry ciphertext page).0 ≡ ok tx
      → IsHanded tx entry (run_handoff env address entry ciphertext page).1
  unfolding run_handoff
  run_handoff-IsHanded entry ciphertext tx page same h =
      let asked =
        store_policy_on_chain env.clients env.addresses entry.policy ciphertext page.world in
      keep_handoff-IsHanded entry tx (record page { world = asked.1 }) asked.0 same h
