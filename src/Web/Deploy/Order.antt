-- ===== src/Web/Deploy/Order.antt =====
-- The calls of a whole deployment, in their order.
use flare_studio.Base.Text.{Text}
use flare_studio.Base.{ℕ, List, [], ◌∷◌, ◌++◌, ok, ◌≡◌, ◌⊎◌}
use flare_studio.Web.TriggerSetup.{trigger_address, configure_request}
use flare_studio.Web.StorePolicy.{TriggerConfig, Call, factory_deploy, trigger_configure}
use flare_studio.Web.Transactions.{Env, DeployOptions}
use flare_studio.Web.Deploy.Calls.{Funds, Hands}

module _ {W : Type 0} (env : Env W) where
  -- After the setup of a policy's trigger: its hand-off, and then its funding.
  abbrev pub Finishes : Text → ℕ → List Call → Type 0
  Finishes policy amount calls =
      (handing : List Call) × (funding : List Call) × Hands env policy handing
      × Funds env policy amount funding
      × (calls ≡ handing ++ funding)

  -- From the factory's call on: nothing, or the setup of the trigger for the policy, and the rest.
  abbrev pub SetsUp : DeployOptions → Text → List Call → Type 0
  SetsUp options trigger calls =
      (calls ≡ [])
      ⊎ ((policy : Text) × (now : ℕ) × (config : TriggerConfig) × (more : List Call)
          × (configure_request env.viem now options.compiled.ir.trigger options.account policy
              ≡ ok config)
          × (calls ≡ trigger_configure trigger config ∷ more)
          × Finishes policy options.amount more)

  -- The whole: the factory's call with the commitment and the trigger, and what follows it.
  abbrev pub Ordered : DeployOptions → List Call → Type 0
  Ordered options calls =
      (trigger : Text) × (more : List Call) × (trigger_address env.addresses
          options.compiled.ir.trigger
        ≡ ok trigger)
      × SetsUp options trigger more
      × (calls
          ≡ factory_deploy env.addresses.policy_factory env.addresses.fxrp
              options.compiled.public_args.commitment env.addresses.tee_attestor_gate trigger
            ∷ more)
