-- ===== src/Web/Deploy/Handoff.antt =====
-- The hand-off to the enclave, which never stops a deployment, and the entry that the vault keeps.
use flare_studio.Base.Text.{Text}
use flare_studio.Base.{
  Option, none, some, ok, err, List, ◌++◌, ◌≡◌, inl, inr, refl, ◌∙◌, ap, Result-cases, Bool-cases,
}
use flare_studio.Web.Chain.{enclave_handoff_configured}
use flare_studio.Web.Steps.{
  StepId, handoff, StepStatus, running, done, skipped, Patch, starts, ends_as, statuses, set_status,
  set_status-twice,
}
use flare_studio.Web.Thrown.{Thrown}
use flare_studio.Web.StorePolicy.{store_policy_on_chain}
use flare_studio.Web.Vault.{Handoff, VaultEntry, get_entry, save_entry}
use flare_studio.Web.Vault.Entries.{get_entry-save_entry}
use flare_studio.Web.Transactions.{Env, Run, progress}
use flare_studio.Web.Deploy.{
  save_stage, skip_send, after_save, keep_sent, send_stage, handoff_stage,
}
use flare_studio.Web.Deploy.Outcome.{Stored}
use flare_studio.Web.Deploy.Progress.{statuses-progress, Settled}

-- The entry is the one that was to be kept, up to the record of its hand-off.
pub record SameSecrets (kept entry : VaultEntry) : Type 0 where
  pub policy_is : kept.policy ≡ entry.policy
  pub salt_is : kept.salt ≡ entry.salt
  pub config_is : kept.private_config ≡ entry.private_config
  pub ciphertext_is : kept.ciphertext ≡ entry.ciphertext

same_secrets : (entry : VaultEntry) → SameSecrets entry entry
same_secrets entry = record {
  policy_is = refl;
  salt_is = refl;
  config_is = refl;
  ciphertext_is = refl;
}

handed_off :
    (entry : VaultEntry) (sent : Handoff) → SameSecrets (record entry { handoff = some sent }) entry
handed_off entry sent = record {
  policy_is = refl;
  salt_is = refl;
  config_is = refl;
  ciphertext_is = refl;
}

module _ {W : Type 0} where
  pub record HandsOff (b : List (StepId × StepStatus)) (entry : VaultEntry) (r : VaultEntry × Run W)
      : Type 0 where
    pub status : StepStatus
    pub settled : Settled status
    pub statuses_are : statuses r.1.steps ≡ set_status handoff (some status) b
    pub same : SameSecrets r.0 entry
    pub in_vault : Stored r.0 status r.1.vault

  statuses-ended :
      (s : StepStatus) (p : Patch) (b : List (StepId × StepStatus)) (run : Run W)
      → p.to_status ≡ some s
      → statuses run.steps ≡ set_status handoff (some running) b
      → statuses (progress handoff p run).steps ≡ set_status handoff (some s) b
  statuses-ended s p b run e h =
      statuses-progress handoff p (set_status handoff (some running) b) run h
      ∙ ap (λ t. set_status handoff t (set_status handoff (some running) b)) e
      ∙ set_status-twice handoff running s b

  -- The step is skipped, and the entry stays.
  HandsOff-skipped :
      (b : List (StepId × StepStatus)) (entry : VaultEntry) (note : Option Text) (run : Run W)
      → statuses run.steps ≡ set_status handoff (some running) b
      → get_entry entry.policy run.vault ≡ some entry
      → HandsOff b entry (entry, progress handoff (ends_as skipped note) run)
  HandsOff-skipped b entry note run h k = record {
    status = skipped;
    settled = inr refl;
    statuses_are = statuses-ended skipped (ends_as skipped note) b run refl h;
    same = same_secrets entry;
    in_vault = (entry, k, inl refl);
  }

module _ {W : Type 0} (env : Env W) where
  pub save_stage_takes :
      (entry : VaultEntry) (run : Run W) (u : Unit {0})
      → env.store (save_entry entry run.vault) run.world ≡ ok u
      → save_stage env entry run ≡ (ok u, record run { vault = save_entry entry run.vault })
  unfolding save_stage
  save_stage_takes entry run u e = rw (e, save_stage)

  pub save_stage_throws :
      (entry : VaultEntry) (run : Run W) (t : Thrown)
      → env.store (save_entry entry run.vault) run.world ≡ err t
      → save_stage env entry run ≡ (err t, run)
  unfolding save_stage
  save_stage_throws entry run t e = rw (e, save_stage)

  -- The entry with its hand-off is saved, and the step is done; or the step is skipped, and the vault
  -- keeps the entry without it.
  keep_sent-HandsOff :
      (b : List (StepId × StepStatus)) (entry : VaultEntry) (sent : Handoff) (tx_hash : Text)
      (run : Run W)
      → statuses run.steps ≡ set_status handoff (some running) b
      → get_entry entry.policy run.vault ≡ some entry
      → HandsOff b entry (keep_sent env (record entry { handoff = some sent }) tx_hash run)
  unfolding keep_sent after_save skip_send
  keep_sent-HandsOff b entry sent tx_hash run h k =
      let kept = record entry { handoff = some sent } in
      let saved = save_entry kept run.vault in
      elim (Result-cases (env.store saved run.world)) [
        | inl (u, e) ↦ rw (save_stage_takes kept run u e) (record {
          status = done;
          settled = inl refl;
          statuses_are = statuses-ended done _ b (record run { vault = saved }) refl h;
          same = handed_off entry sent;
          in_vault = (kept, get_entry-save_entry kept entry.policy run.vault refl, inl refl);
        })
        | inr (t, e) ↦ rw (save_stage_throws kept run t e) (record {
          status = skipped;
          settled = inr refl;
          statuses_are = statuses-ended skipped _ b run refl h;
          same = handed_off entry sent;
          in_vault = (entry, k, inr (refl, refl));
        })
      ]

  pub keep_sent_calls :
      (kept : VaultEntry) (tx_hash : Text) (run : Run W)
      → (keep_sent env kept tx_hash run).1.calls ≡ run.calls
  unfolding keep_sent after_save skip_send
  keep_sent_calls kept tx_hash run =
      elim (Result-cases (env.store (save_entry kept run.vault) run.world)) [
        | inl (u, e) ↦ rw (save_stage_takes kept run u e) refl
        | inr (t, e) ↦ rw (save_stage_throws kept run t e) refl
      ]

  send_stage-HandsOff :
      (b : List (StepId × StepStatus)) (entry : VaultEntry) (ciphertext : Text) (run : Run W)
      → statuses run.steps ≡ set_status handoff (some running) b
      → get_entry entry.policy run.vault ≡ some entry
      → HandsOff b entry (send_stage env entry ciphertext run)
  unfolding send_stage skip_send
  send_stage-HandsOff b entry ciphertext run h k =
      let out = store_policy_on_chain env.clients env.addresses entry.policy ciphertext run.world in
      let after : Run W = record run { world = out.1; calls = run.calls ++ out.2 } in
      elim (Result-cases out.0) [
        | inr (t, e) ↦ rw (e, send_stage) (HandsOff-skipped b entry _ after h k)
        | inl (result, e) ↦
            rw (e, send_stage) (keep_sent-HandsOff b entry _ result.tx_hash after h k)
      ]

  pub handoff_stage-HandsOff :
      (b : List (StepId × StepStatus)) (entry : VaultEntry) (ciphertext : Option Text) (run : Run W)
      → statuses run.steps ≡ b
      → get_entry entry.policy run.vault ≡ some entry
      → HandsOff b entry (handoff_stage env entry ciphertext run)
  unfolding handoff_stage
  handoff_stage-HandsOff b entry none run h k =
      HandsOff-skipped b entry _ (progress handoff starts run)
        (statuses-progress handoff starts b run h) k
  handoff_stage-HandsOff b entry (some text) run h k =
      let shown = progress handoff starts run in
      let started = statuses-progress handoff starts b run h in
      elim (Bool-cases (enclave_handoff_configured env.addresses)) [
        | inl set ↦ rw (set, handoff_stage) (send_stage-HandsOff b entry text shown started k)
        | inr unset ↦ rw (unset, handoff_stage) (HandsOff-skipped b entry _ shown started k)
      ]
