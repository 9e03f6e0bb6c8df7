-- ===== src/Web/Monitor/Tests.antt =====
-- Runs of the list of policies, the wallet, the page of a policy, the stored vault and the info route,
-- and the theorems at those runs.
use flare_studio.Base.Text.{Text, codes, includes}
use flare_studio.Base.{
  ℕ, ◌+◌, true, false, Option, none, some, List, [], ◌∷◌, Result, ok, err, ◌≡◌, ◌↔◌, refl, sym,
  if◌then◌else◌,
}
use flare_studio.Policy.TeeInfo.Tests.{info, key}
use flare_studio.Web.Thrown.{Thrown, exception}
use flare_studio.Web.Enclave.{key_of_response}
use flare_studio.Web.InfoRoute.{
  FetchFailure, ProxyResponse, info_route, info_url, served, answer_of_fetch, answer_of, forward,
  type_text,
}
use flare_studio.Web.InfoRoute.Forwarded.{HasKey, info_route-key}
use flare_studio.Web.Monitor.{PageEnv, Page, cancel, send, write}
use flare_studio.Web.Monitor.Sending.{IsEnded, receipt_of, started, send-IsEnded}
use flare_studio.Web.Policies.{Reader, list_policies, read_policy}
use flare_studio.Web.Policies.Listed.{
  IsLatestFirst, listed, is_ok, one_if, known_to, list_policies-listed,
}
use flare_studio.Web.Tests.{entry, clients, addresses}
use flare_studio.Web.Vault.{VaultEntry, save_entry}
use flare_studio.Web.Vault.Storage.{
  Browser, save_stored, view, updated, save_stored-updated, read_vault, write_vault, parsed_item,
}
use flare_studio.Web.Wallet.{Provider, connect, initial_wallet}
use flare_studio.Web.Wallet.Connecting.{Stops, IsSettled, connect-IsSettled}

-- The chain of one owner's policy 0xP1, which the vault does not know.
abbrev reader : Reader
reader = record {
  get_logs = λ owner. ok (some (codes "0xP1") ∷ none ∷ []);
  status = λ policy. ok 0;
  balance = λ policy. ok 5;
  commitment = λ policy. ok (codes "0xc0");
  trigger = λ policy. ok (codes "0x0e");
  kind = λ trigger policy. ok (codes "manual-heartbeat");
  deadline_of = λ trigger policy. ok 1_800_000_000;
  execute_after = λ trigger policy. err (codes "reverted");
  configs = λ trigger policy. err (codes "reverted");
}

list_policies-listed_example :
    IsLatestFirst reader
      (entry (codes "0xP0") 2 ∷ [])
      (list_policies reader (entry (codes "0xP0") 2 ∷ []) (codes "0xaa"))
    × (listed (codes "0xP1") (list_policies reader (entry (codes "0xP0") 2 ∷ []) (codes "0xaa")) ≡ (
        if is_ok (read_policy reader (entry (codes "0xP0") 2 ∷ []) (codes "0xP1"))
        then one_if (known_to reader (entry (codes "0xP0") 2 ∷ []) (codes "0xaa") (codes "0xP1"))
        else 0))
list_policies-listed_example =
    list_policies-listed reader (entry (codes "0xP0") 2 ∷ []) (codes "0xaa") (codes "0xP1")

-- A wallet on another chain, whose user does not switch.
abbrev provider : Provider ℕ
provider = record {
  accounts = λ n. (ok (codes "0xaa" ∷ []), n + 1);
  request_accounts = λ n. (ok (codes "0xaa" ∷ []), n + 1);
  chain_id_of = λ n. (ok (codes "0x1"), n + 1);
  switch_chain = λ id n. (err (exception (some 4001) none none []), n + 1);
  add_chain = λ id name n. (ok tt, n + 1);
}

connect-IsSettled_example :
    IsSettled none
      (Stops provider 0)
      (connect (some provider) (record { wallet = initial_wallet; world = 0 })).wallet
unfolding initial_wallet
connect-IsSettled_example =
    connect-IsSettled provider (record { wallet = initial_wallet; world = 0 })

abbrev page_env : PageEnv ℕ
page_env = record {
  write_contract = λ call n. (ok (codes "0xhash"), n + 1);
  wait_for_receipt = λ hash n. (ok tt, n + 1);
  allowance = λ owner spender n. (ok 3, n);
  reader = λ n. reader;
  clients = clients false (λ n. true);
  addresses = addresses (codes "0x0e");
  date_now = λ n. n;
  store = λ saved n. ok tt;
}

abbrev page : Page ℕ
page = record {
  world = 0;
  vault = [];
  policy = none;
  entry = none;
  demo_mode = false;
  error = none;
  busy = none;
  last_tx = none;
  calls = [];
}

abbrev cancelling : Page ℕ → Result Thrown Text × Page ℕ
cancelling = write page_env (codes "0xP1") (cancel (codes "0xP1"))

send-IsEnded_example :
    IsEnded page_env
      (codes "0xP1")
      (ok (codes "0xhash"))
      (ok tt)
      (receipt_of page_env
        (codes "0xP1")
        (cancelling (started page_env (codes "0xP1") (codes "cancel") page))).1
      (send page_env (codes "0xP1") (codes "cancel") cancelling page)
send-IsEnded_example = send-IsEnded page_env (codes "0xP1") (codes "cancel") cancelling page

-- A storage that keeps the entries that it is given, and none at first.
abbrev browser : Browser (Option (List VaultEntry)) (List VaultEntry)
browser = record {
  has_window = true;
  get_item = λ s. ok s;
  set_item = λ json s. ok (some json);
  is_empty = λ json. false;
  parse = λ json. ok (some json);
  stringify = λ es. es;
  reads_back = λ json s s' h. sym h;
  parses_back = λ es. refl;
  not_empty = λ es. refl;
}

saved_run :
    save_stored browser (entry (codes "0xAB") 2) none ≡ ok (some (entry (codes "0xAB") 2 ∷ []))
unfolding save_stored read_vault write_vault parsed_item save_entry
saved_run = refl

save_stored-updated_example :
    view browser (some (entry (codes "0xAB") 2 ∷ [])) (codes "0xab")
    ≡ updated browser (entry (codes "0xAB") 2) (view browser none) (codes "0xab")
save_stored-updated_example =
    save_stored-updated browser (entry (codes "0xAB") 2) (codes "0xab") none
      (some (entry (codes "0xAB") 2 ∷ [])) refl saved_run

abbrev fetch : Text → Result FetchFailure ProxyResponse
fetch url = ok (record {
  is_ok = true;
  status = 200;
  content_type = some (codes "application/json");
  json = ok (info (codes "0x"));
})

route_run :
    info_route fetch (codes "http://proxy/")
    ≡ ok (record { status = 200; body = info (codes "0x") })
unfolding info_route answer_of_fetch answer_of forward type_text includes
route_run = refl

info_route-key_example :
    (key_of_response (served (record { status = 200; body = info (codes "0x") })) ≡ ok key)
    ↔ HasKey (fetch (info_url (codes "http://proxy/"))) key
info_route-key_example =
    info_route-key fetch b'h' (codes "ttp://proxy/")
      (record { status = 200; body = info (codes "0x") }) key route_run
