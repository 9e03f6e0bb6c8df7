-- ===== src/Web/Tests.antt =====
-- Runs of the web application's logic, and its theorems at those runs.
use flare_studio.Base.Text.{Text, codes, text_eq, to_lower_case}
use flare_studio.Base.Decimal.{decimal}
use flare_studio.Base.Value.{get}
use flare_studio.Base.{
  ℕ, ◌+◌, Bool, true, false, none, some, [], ◌∷◌, ◌++◌, ok, err, ◌≡◌, ◌≢◌, ◌⊎◌, refl, arith, not,
  ◌==◌,
}
use flare_studio.Policy.Schema.{manual_heartbeat}
use flare_studio.Policy.Compile.{CompiledPolicy}
use flare_studio.Policy.TeeInfo.{
  tee_public_key_from_info, find_public_key, section_point, as_point, strip_hex,
}
use flare_studio.Policy.TeeInfo.Tests.{info}
use flare_studio.Web.Chain.{Addresses, is_unset, is_set, enclave_handoff_configured}
use flare_studio.Web.Thrown.{error_of, exception, message, first_line}
use flare_studio.Web.Enclave.{Network, fetch_tee_public_key, key_of_response}
use flare_studio.Web.Steps.{
  pending, done, error, statuses, board, update, assign, same_step, patched, initial_steps,
  configure,
}
use flare_studio.Web.StorePolicy.{
  Call, Clients, Log, store_policy_on_chain, await_handoff, handoff_result, extract_instruction_id,
}
use flare_studio.Web.TriggerSetup.{
  DeployFailure, deploy_failure, other_failure, trigger_address, require_deployed,
  configure_request, kind_of,
}
use flare_studio.Web.Vault.{VaultEntry, get_entry, save_entry, is_for}
use flare_studio.Web.Transactions.{
  wallet_client, Env, DeployOptions, thrown_as, confirmed, policy_address_from_receipt,
  send_and_wait, await_receipt,
}
use flare_studio.Web.Deploy.{
  deploy_policy, deploy_with, seal_stage, seal_with, deploy_stage, read_deployed, configure_stage,
  confirmed_stage, entry_of, save_stage, after_save, keep_sent, skip_send, handoff_stage,
  send_stage, finish_stage, fund_stage, approve_stage, deposit_stage, plaintext_of,
}
use flare_studio.Web.Deploy.Outcome.{NotStarted, Outcome}
use flare_studio.Web.Deploy.Runs.{deploy_policy-Outcome}

-- A policy that checks in every day, and has no recipients to show.
abbrev pub compiled : CompiledPolicy
compiled = record {
  ir = record {
    version = 1;
    name = codes "savings";
    asset = codes "FXRP";
    trigger = manual_heartbeat 86_400 false;
    conditions = [];
    actions = [];
  };
  public_args = record {
    asset_symbol = codes "FXRP";
    commitment = codes "0xc0";
    trigger = manual_heartbeat 86_400 false;
    conditions = [];
  };
  private_config = record { version = 1; name = codes "savings"; recipients = [] };
  enclave_config = record { salt = codes "0x01"; shares = [] };
  plaintext = some (codes "{}");
}

abbrev pub options : ℕ → DeployOptions
options amount = record {
  compiled = compiled;
  salt = codes "0x01";
  template_id = codes "xrp-inheritance";
  account = codes "0xaa";
  amount = amount;
}

abbrev pub addresses : Text → Addresses
addresses heartbeat = record {
  policy_factory = codes "0xFa";
  tee_attestor_gate = codes "0x0b";
  manual_heartbeat_trigger = heartbeat;
  timestamp_trigger = codes "0x00";
  fdc_nonexistence_trigger = codes "0x00";
  fxrp = codes "0x0c";
  policy_instruction_sender = codes "0x0d";
}

abbrev network : Network ℕ
network = record {
  ext_proxy_url = codes "https://proxy";
  fetch_info =
      λ n. (ok (record { is_ok = true; status = 200; json = ok (info (codes "0x")) }), n + 1);
}

-- The world counts the calls. A wallet that refuses the setup of triggers when told so, and a chain on
-- which every transaction has the status that it is told.
abbrev pub refused : Bool → Call → Bool
refused refuse (Call.trigger_configure trigger config) = refuse
refused refuse call = false

abbrev pub receipt_log : Log
receipt_log = record { address = codes "0xfA"; log_data = []; topics = [] }

abbrev pub clients : Bool → (ℕ → Bool) → Clients ℕ
clients refuse succeeds = record {
  simulate_contract = λ call n. (ok tt, n);
  write_contract = λ call n. (
    elim (refused refuse call) [
      | true ↦ err (exception (some 4001) none none [])
      | false ↦ ok (codes "0xhash")
    ],
    n + 1,
  );
  wait_for_receipt = λ hash n. (ok (record { succeeded = succeeds n; logs = receipt_log ∷ [] }), n);
  decode_policy_deployed = λ log. ok (some (codes "0xP0"));
  decode_instructions_sent = λ log. ok (some (codes "0x99"));
}

abbrev env : Text → Bool → (ℕ → Bool) → Env ℕ
env heartbeat refuse succeeds = record {
  network = network;
  clients = clients refuse succeeds;
  addresses = addresses heartbeat;
  viem = record { encode_packed = λ tag policy. ok (tag ++ policy); keccak256 = λ bytes. bytes };
  ecies_encrypt = λ key text n. (ok (key ++ text), n);
  date_now = λ n. 1_700_000_000_000 + n;
  injected = λ n. true;
  store = λ vault n. ok tt;
}

deploy_run : Unit {0}
unfolding deploy_policy wallet_client deploy_with seal_stage seal_with deploy_stage read_deployed
    confirmed policy_address_from_receipt send_and_wait await_receipt configure_stage
    confirmed_stage entry_of save_stage after_save keep_sent skip_send thrown_as handoff_stage
    send_stage finish_stage fund_stage approve_stage deposit_stage plaintext_of trigger_address
    require_deployed configure_request kind_of store_policy_on_chain await_handoff handoff_result
    extract_instruction_id fetch_tee_public_key key_of_response tee_public_key_from_info
    find_public_key section_point as_point strip_hex update assign same_step patched initial_steps
    is_unset is_set enclave_handoff_configured text_eq to_lower_case get message error_of first_line
    decimal save_entry get_entry is_for
deploy_run = tt

-- Five calls, and every step done.
deployed : (deploy_policy (env (codes "0x0e") false (λ n. true)) (options 5) 0 []).1.world ≡ 6
unfolding deploy_run
deployed = refl

deployed_steps :
    statuses (deploy_policy (env (codes "0x0e") false (λ n. true)) (options 5) 0 []).1.steps
    ≡ board done done done done done done
unfolding deploy_run
deployed_steps = refl

-- The user refuses the setup of the trigger: the policy is there, and the vault does not know it.
refused_steps :
    statuses (deploy_policy (env (codes "0x0e") true (λ n. true)) (options 5) 0 []).1.steps
    ≡ board done done error pending pending pending
unfolding deploy_run
refused_steps = refl

refused_vault : (deploy_policy (env (codes "0x0e") true (λ n. true)) (options 5) 0 []).1.vault ≡ []
unfolding deploy_run
refused_vault = refl

-- The approval, which is the fifth call of the world, reverts: its step is done all the same.
reverted_steps :
    statuses (deploy_policy (env (codes "0x0e") false (λ n. not (n == 5))) (options 5) 0 []).1.steps
    ≡ board done done done done done done
unfolding deploy_run
reverted_steps = refl

undeployed :
    (deploy_policy (env (codes "0x00") false (λ n. true)) (options 5) 0 []).0
    ≡ err (
        deploy_failure (record {
          reason =
              codes "The "
              ++ (codes "check-in trigger"
                  ++ (codes " is not deployed on "
                      ++ (codes "Flare Testnet Coston2" ++ codes " yet.")));
          step = configure;
        }))
unfolding deploy_run
undeployed = refl

abbrev run_env : Env ℕ
run_env = env (codes "0x0e") false (λ n. true)

deploy_policy-Outcome_example :
    ((failure : DeployFailure) × NotStarted run_env (options 5) 0 failure
      × (deploy_policy run_env (options 5) 0 [] ≡ (
        err failure,
        record { world = 0; steps = initial_steps (codes "FXRP"); calls = []; vault = [] },
      )))
    ⊎ Outcome run_env (options 5) [] (deploy_policy run_env (options 5) 0 [])
deploy_policy-Outcome_example = deploy_policy-Outcome run_env (options 5) 0 []

-- A storage that is full once the policy has been created: its exception leaves the deployment.
abbrev full_env : Env ℕ
full_env = record run_env { store = λ vault n. err (error_of (codes "full")) }

unsaved :
    (deploy_policy full_env (options 5) 0 []).0 ≡ err (other_failure (error_of (codes "full")))
unfolding deploy_run
unsaved = refl

abbrev pub entry : Text → ℕ → VaultEntry
entry policy time = entry_of (options 0) (codes "0x0e") policy (codes "0xhash") none time

cd-ne-ab : to_lower_case (codes "0xcd") ≢ to_lower_case (codes "0xAB")
unfolding to_lower_case
cd-ne-ab e = ground arith
