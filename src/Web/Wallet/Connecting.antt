-- ===== src/Web/Wallet/Connecting.antt =====
-- How an attempt to connect ends.
use flare_studio.Base.Int.{ℤ, pos}
use flare_studio.Base.Text.{Text}
use flare_studio.Base.{
  true, false, Option, none, some, ◌≡◌, ◌⊎◌, inl, inr, refl, sym, List, ap, ◌∙◌, Result, ok, err,
  ▷-cases, Bool-cases, arith, if◌then◌else◌,
}
use flare_studio.Web.Chain.{chain_id, chain_name}
use flare_studio.Web.Thrown.{Thrown, message}
use flare_studio.Web.Wallet.{
  WalletState, Provider, Session, on_coston2, ask, set_wallet, add_if_unknown, switch_to_coston2,
  try_connect, caught, connect, parse_int_16, is_coston2, first_account, hex_chain_id,
  is_unknown_chain,
}

-- The exception that stops an attempt in a world: that of the first request that fails, unless it is the
-- switch to a chain that the wallet does not know, and then that of the request to add it.
pub data Stops {W : Type 0} (provider : Provider W) (w : W) (e : Thrown) : Type 0 where
  no_accounts : (provider.request_accounts w).0 ≡ err e → Stops provider w e
  no_chain :
      (accounts : List Text) (w1 : W)
      → provider.request_accounts w ≡ (ok accounts, w1)
      → (provider.chain_id_of w1).0 ≡ err e
      → Stops provider w e
  no_switch :
      (accounts : List Text) (id : Text) (w1 w2 : W)
      → provider.request_accounts w ≡ (ok accounts, w1)
      → provider.chain_id_of w1 ≡ (ok id, w2)
      → is_coston2 (parse_int_16 id) ≡ false
      → (provider.switch_chain hex_chain_id w2).0 ≡ err e
      → is_unknown_chain e ≡ false
      → Stops provider w e
  not_added :
      (accounts : List Text) (id : Text) (unknown : Thrown) (w1 w2 w3 : W)
      → provider.request_accounts w ≡ (ok accounts, w1)
      → provider.chain_id_of w1 ≡ (ok id, w2)
      → is_coston2 (parse_int_16 id) ≡ false
      → provider.switch_chain hex_chain_id w2 ≡ (err unknown, w3)
      → is_unknown_chain unknown ≡ true
      → (provider.add_chain hex_chain_id chain_name w3).0 ≡ err e
      → Stops provider w e

-- A wallet on the right chain without an error, or an exception as `P` has it, with the chain as it was.
abbrev EndsFrom :
    {W : Type 0} → Option ℤ → (Thrown → Type 0) → Result Thrown (Unit {0}) × Session W → Type 0
EndsFrom chain P (ok done, s) = (s.wallet.error ≡ none) × (s.wallet.chain ≡ some (pos chain_id))
EndsFrom chain P (err e, s) = (s.wallet.chain ≡ chain) × P e

-- Connected, or with the message of an exception as `P` has it, and the chain as it was.
abbrev pub IsSettled : Option ℤ → (Thrown → Type 0) → WalletState → Type 0
IsSettled chain P w =
    (w.connecting ≡ false)
    × (((w.error ≡ none) × (on_coston2 w ≡ true))
        ⊎ ((e : Thrown) × P e × (w.error ≡ some (message e)) × (w.chain ≡ chain)))

module _ {W : Type 0} (provider : Provider W) where
  add_if_unknown-keeps :
      (r : Result Thrown (Unit {0})) (s : Session W)
      → (add_if_unknown provider r s).1.wallet ≡ s.wallet
  unfolding add_if_unknown
  add_if_unknown-keeps (ok done) s = refl
  add_if_unknown-keeps (err e) s = ground arith

  add_if_unknown_throws :
      (r : Result Thrown (Unit {0})) (s : Session W) (e : Thrown)
      → (add_if_unknown provider r s).0 ≡ err e
      → ((r ≡ err e) × (is_unknown_chain e ≡ false))
        ⊎ ((unknown : Thrown) × (r ≡ err unknown)
            × (is_unknown_chain unknown ≡ true)
            × ((provider.add_chain hex_chain_id chain_name s.world).0 ≡ err e))
  unfolding add_if_unknown
  add_if_unknown_throws (ok done) s e h = cc
  add_if_unknown_throws (err e') s e h = elim (Bool-cases (is_unknown_chain e')) [
    | inl unknown ↦ inr (e', refl, unknown, (rw unknown at h))
    | inr known ↦
        let same : ◌≡◌ {A = Result Thrown (Unit {0})} (err e') (err e) = rw known at h in
        let thrown : e' ≡ e = cc same in inl (same, rw (← thrown) known)
  ]

  switch-EndsFrom :
      (w : W) (accounts : List Text) (id : Text) (w1 w2 : W) (s : Session W)
      → provider.request_accounts w ≡ (ok accounts, w1)
      → provider.chain_id_of w1 ≡ (ok id, w2)
      → is_coston2 (parse_int_16 id) ≡ false
      → s.world ≡ w2
      → s.wallet.error ≡ none
      → EndsFrom s.wallet.chain (Stops provider w) (switch_to_coston2 (some provider) s)
  unfolding switch_to_coston2
  switch-EndsFrom w accounts id w1 w2 s given answered elsewhere here h =
      let asked = ask (provider.switch_chain hex_chain_id) s in
      let same = add_if_unknown-keeps asked.0 asked.1 in
      let request = ap (provider.switch_chain hex_chain_id) (sym here) in
      ▷-cases (EndsFrom s.wallet.chain (Stops provider w)) (add_if_unknown provider asked.0 asked.1)
        _
        (λ e failed. (
          ap (λ (w : WalletState). w.chain) same,
          elim (add_if_unknown_throws asked.0 asked.1 e failed) [
            | inl (refused, known) ↦
                no_switch accounts id w1 w2 given answered elsewhere
                  (ap (λ (r : Result Thrown (Unit {0}) × W). r.0) request ∙ refused) known
            | inr (unknown, refused, is_new, threw) ↦
                not_added accounts id unknown w1 w2 asked.1.world given answered elsewhere
                  (request ∙ ap (λ (r : Result Thrown (Unit {0})). (r, asked.1.world)) refused)
                  is_new threw
          ],
        ))
        (λ done worked. (ap (λ (w : WalletState). w.error) same ∙ h, refl))

  on_right_chain :
      (w : W) (accounts : List Text) (id : Text) (w1 w2 : W) (s : Session W)
      → provider.request_accounts w ≡ (ok accounts, w1)
      → provider.chain_id_of w1 ≡ (ok id, w2)
      → s.world ≡ w2
      → s.wallet.error ≡ none
      → EndsFrom s.wallet.chain (Stops provider w) (
          if is_coston2 (parse_int_16 id)
          then (ok tt, set_wallet (λ w. record w { chain = some (pos chain_id) }) s)
          else switch_to_coston2 (some provider) s)
  on_right_chain w accounts id w1 w2 s given answered here h =
      elim (Bool-cases (is_coston2 (parse_int_16 id))) [
        | inl right ↦ rw right (h, refl)
        | inr wrong ↦ rw wrong (switch-EndsFrom w accounts id w1 w2 s given answered wrong here h)
      ]

  try_connect-EndsFrom :
      (s : Session W)
      → s.wallet.error ≡ none
      → EndsFrom s.wallet.chain (Stops provider s.world) (try_connect provider s)
  unfolding try_connect
  try_connect-EndsFrom s h =
      let P = Stops provider s.world in
      ▷-cases (EndsFrom s.wallet.chain P) (ask provider.request_accounts s) _
        (λ e failed. (refl, no_accounts failed))
        (λ accounts given.
          let s1 = (ask provider.request_accounts s).1 in
          let s2 = set_wallet (λ w. record w { account = first_account accounts }) s1 in
          let first = ap (λ (r : Result Thrown (List Text)). (r, s1.world)) given in
          ▷-cases (EndsFrom s.wallet.chain P) (ask provider.chain_id_of s2) _
            (λ e failed. (refl, no_chain accounts s1.world first failed))
            (λ id answered.
              let s3 = (ask provider.chain_id_of s2).1 in
              on_right_chain s.world accounts id s1.world s3.world s3 first
                (ap (λ (r : Result Thrown Text). (r, s3.world)) answered) refl h))

  caught-IsSettled :
      (chain : Option ℤ) (P : Thrown → Type 0) (r : Result Thrown (Unit {0}) × Session W)
      → EndsFrom chain P r
      → IsSettled chain P (set_wallet (λ w. record w { connecting = false }) (caught r)).wallet
  unfolding caught on_coston2
  caught-IsSettled chain P (ok done, s) (no_error, right) = (refl, inl (no_error, rw right refl))
  caught-IsSettled chain P (err e, s) (same, threw) = (refl, inr (e, threw, refl, same))

  -- An attempt to connect, whatever the wallet answers or throws and whatever was shown before, ends
  -- with the attempt over: either without an error and on Coston2, or with the message of the exception
  -- that stopped it, and the chain as it was. That is the exception of the first request that fails, or,
  -- if the wallet does not know Coston2, of the request to add it.
  pub connect-IsSettled :
      (s : Session W)
      → IsSettled s.wallet.chain (Stops provider s.world) (connect (some provider) s).wallet
  unfolding connect
  connect-IsSettled s =
      caught-IsSettled s.wallet.chain (Stops provider s.world) _ (
        try_connect-EndsFrom (set_wallet (λ w. record w { connecting = true; error = none }) s)
          refl)
