-- ===== src/Web/Wallet.antt =====
-- apps/web/lib/wallet.ts: the connection to an injected wallet. Its requests are the parameter
-- `Provider`: each may change the state of the world, and return or throw.
pub mod Connecting
use flare_studio.Base.Int.{ℤ, pos, negsuc}
use flare_studio.Base.Text.{Text, codes, is_hex_digit, hex_value, trim_start, hex_digit}
use flare_studio.Base.{
  ℕ, zero, suc, ◌+◌, ◌-◌, ◌*◌, ◌/◌, ◌%◌, Bool, true, false, Option, none, some, List, [], ◌∷◌, ◌++◌,
  Result, ok, err, ◌▷◌, ◌==◌, ◌||◌, if◌then◌else◌,
}
use flare_studio.Web.Chain.{chain_id, chain_name}
use flare_studio.Web.Thrown.{Thrown, exception, other_value, error_of, wallet_error_message}

-- `Number.parseInt(text, 16)`, or nothing for NaN: the digits at the front, after white space, a sign
-- and a prefix.
unfoldable pub hex_front : ℕ → Text → ℕ
unfolding is_hex_digit hex_value
hex_front acc [] = acc
hex_front acc (c ∷ s) =
    let rest = hex_front (acc * 16 + hex_value c) s in if is_hex_digit c then rest else acc

unfoldable pub hex_number : Text → Option ℕ
unfolding hex_front is_hex_digit
hex_number [] = none
hex_number (c ∷ s) = if is_hex_digit c then some (hex_front 0 (c ∷ s)) else none

unfoldable pub hex_prefixed : Text → Option ℕ
unfolding hex_number
hex_prefixed (z ∷ x ∷ s) =
    if z == b'0'
    then if x == b'x' || x == b'X' then hex_number s else hex_number (z ∷ x ∷ s)
    else hex_number (z ∷ x ∷ s)
hex_prefixed s = hex_number s

unfoldable pub negated : Option ℕ → Option ℤ
negated none = none
negated (some zero) = some (pos 0)
negated (some (suc n)) = some (negsuc n)

unfoldable pub positive : Option ℕ → Option ℤ
positive none = none
positive (some n) = some (pos n)

unfoldable pub signed_hex : Text → Option ℤ
unfolding hex_prefixed negated positive
signed_hex [] = none
signed_hex (c ∷ s) =
    if c == b'-'
    then negated (hex_prefixed s)
    else if c == b'+'
    then positive (hex_prefixed s)
    else positive (hex_prefixed (c ∷ s))

unfoldable pub parse_int_16 : Text → Option ℤ
unfolding signed_hex trim_start
parse_int_16 s = signed_hex (trim_start s)

-- What the hook keeps. No chain stands for `null` and for NaN.
pub record WalletState : Type 0 where
  pub account : Option Text
  pub chain : Option ℤ
  pub connecting : Bool
  pub error : Option Text
  pub available : Bool

unfoldable pub initial_wallet : WalletState
initial_wallet = record {
  account = none;
  chain = none;
  connecting = false;
  error = none;
  available = false;
}

unfoldable pub is_coston2 : Option ℤ → Bool
is_coston2 (some (pos n)) = n == chain_id
is_coston2 (some (negsuc n)) = false
is_coston2 none = false

unfoldable pub on_coston2 : WalletState → Bool
unfolding is_coston2
on_coston2 s = is_coston2 s.chain

-- `eth_accounts`, `eth_requestAccounts`, `eth_chainId`, `wallet_switchEthereumChain` and
-- `wallet_addEthereumChain`, the last two with the chain's id; the last one with its name too.
pub record Provider (W : Type 0) : Type 0 where
  pub accounts : W → Result Thrown (List Text) × W
  pub request_accounts : W → Result Thrown (List Text) × W
  pub chain_id_of : W → Result Thrown Text × W
  pub switch_chain : (id : Text) → W → Result Thrown (Unit {0}) × W
  pub add_chain : (id name : Text) → W → Result Thrown (Unit {0}) × W

unfoldable pub first_account : List Text → Option Text
first_account [] = none
first_account (a ∷ accounts) = some a

-- `0x72`
unfoldable pub hex_chain_id : Text
hex_chain_id = codes "0x" ++ (hex_digit (chain_id / 16) ∷ hex_digit (chain_id % 16) ∷ [])

-- `(e as { code?: number }).code === 4902`. What was thrown is an object or a primitive that has
-- properties: of null and undefined, which no wallet throws, reading the code would be a TypeError.
unfoldable pub is_unknown_chain : Thrown → Bool
is_unknown_chain (exception (some code) short text printed) = code == 4902
is_unknown_chain (exception none short text printed) = false
is_unknown_chain (other_value printed) = false

-- The hook's state and the world.
pub record Session (W : Type 0) : Type 0 where
  pub wallet : WalletState
  pub world : W

module _ {W : Type 0} where
  abbrev pub set_wallet : (WalletState → WalletState) → Session W → Session W
  set_wallet change s = record { wallet = change s.wallet; world = s.world }

  -- A request to the wallet.
  abbrev pub ask :
      {A : Type 0} → (W → Result Thrown A × W) → Session W → Result Thrown A × Session W
  ask request s =
      let (answer, w) = request s.world in (answer, record { wallet = s.wallet; world = w })

  -- The silent reconnection when the page loads. If the component has gone before the answers are
  -- there, nothing is set; an exception is nobody's.
  unfoldable pub reconnect :
      Option (Provider W) → (cancelled : Bool) → Session W → Result Thrown (Unit {0}) × Session W
  unfolding first_account parse_int_16
  reconnect none cancelled s = (ok tt, s)
  reconnect (some provider) cancelled s =
      ask provider.accounts (set_wallet (λ w. record w { available = true }) s) ▷ λ accounts s1.
      ask provider.chain_id_of s1 ▷ λ id s2. (
        ok tt,
        if cancelled
            then s2
            else set_wallet
                (λ w. record w { account = first_account accounts; chain = parse_int_16 id }) s2,
      )

  unfoldable pub accounts_changed : List Text → Session W → Session W
  unfolding first_account
  accounts_changed accounts s = set_wallet (λ w. record w { account = first_account accounts }) s

  -- The remedy for a switch that failed: add the chain, if the wallet does not know it.
  unfoldable pub add_if_unknown :
      Provider W → Result Thrown (Unit {0}) → Session W → Result Thrown (Unit {0}) × Session W
  unfolding is_unknown_chain
  add_if_unknown provider (ok done) s = (ok tt, s)
  add_if_unknown provider (err e) s =
      if is_unknown_chain e then ask (provider.add_chain hex_chain_id chain_name) s else (err e, s)

  unfoldable pub switch_to_coston2 :
      Option (Provider W) → Session W → Result Thrown (Unit {0}) × Session W
  unfolding add_if_unknown
  switch_to_coston2 none s = (err (error_of (codes "no injected wallet")), s)
  switch_to_coston2 (some provider) s =
      let (switched, s1) = ask (provider.switch_chain hex_chain_id) s in
      add_if_unknown provider switched s1 ▷ λ _ s2.
      (ok tt, set_wallet (λ w. record w { chain = some (pos chain_id) }) s2)

  -- The body of the `try`.
  unfoldable pub try_connect : Provider W → Session W → Result Thrown (Unit {0}) × Session W
  unfolding first_account parse_int_16 is_coston2 switch_to_coston2
  try_connect provider s = ask provider.request_accounts s ▷ λ accounts s1.
      ask provider.chain_id_of (set_wallet (λ w. record w { account = first_account accounts }) s1)
      ▷ λ id s2.
          if is_coston2 (parse_int_16 id)
          then (ok tt, set_wallet (λ w. record w { chain = some (pos chain_id) }) s2)
          else switch_to_coston2 (some provider) s2

  -- The `catch`.
  unfoldable pub caught : Result Thrown (Unit {0}) × Session W → Session W
  caught (ok done, s) = s
  caught (err e, s) = set_wallet (λ w. record w { error = some (wallet_error_message e) }) s

  unfoldable pub connect : Option (Provider W) → Session W → Session W
  unfolding try_connect caught
  connect none s =
      set_wallet
        (λ w. record w {
          error =
              some (codes "No wallet found. Install MetaMask or another EVM wallet to continue.");
        })
        s
  connect (some provider) s =
      set_wallet (λ w. record w { connecting = false })
        (caught
          (try_connect provider (set_wallet (λ w. record w { connecting = true; error = none }) s)))
