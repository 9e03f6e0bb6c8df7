-- ===== src/Web/Steps.antt =====
-- apps/web/lib/deploy.ts, `DeployStep` and `update`: the progress that the user is shown.
use flare_studio.Base.Text.{Text, codes}
use flare_studio.Base.{
  Bool, true, false, Option, none, some, List, [], ◌∷◌, ◌++◌, ◌≡◌, refl, arith, if◌then◌else◌,
}

pub data StepId : Type 0 where
  seal deploy configure handoff approve deposit : StepId

pub data StepStatus : Type 0 where
  pending running done skipped error : StepStatus

pub record DeployStep : Type 0 where
  pub id : StepId
  pub label : Text
  pub status : StepStatus
  pub tx_hash : Option Text
  pub note : Option Text

-- `Partial<DeployStep>`, of the fields that a patch sets.
pub record Patch : Type 0 where
  pub to_status : Option StepStatus
  pub to_tx_hash : Option Text
  pub to_note : Option Text

abbrev pub starts : Patch
starts = record { to_status = some running; to_tx_hash = none; to_note = none }

abbrev pub sent : Text → Patch
sent hash = record { to_status = none; to_tx_hash = some hash; to_note = none }

abbrev pub ends_as : StepStatus → Option Text → Patch
ends_as status note = record { to_status = some status; to_tx_hash = none; to_note = note }

unfoldable pub same_step : StepId → StepId → Bool
same_step seal seal = true
same_step deploy deploy = true
same_step configure configure = true
same_step handoff handoff = true
same_step approve approve = true
same_step deposit deposit = true
same_step _ _ = false

-- A field that the patch has replaces the step's.
unfoldable pub patched {ℓ} : {A : Type ℓ} → Option A → A → A
patched none old = old
patched (some new) old = new

unfoldable pub patched_text : Option Text → Option Text → Option Text
patched_text none old = old
patched_text (some new) old = some new

-- `Object.assign(step, patch)`
unfoldable pub assign : Patch → DeployStep → DeployStep
unfolding patched patched_text
assign p s = record s {
  status = patched p.to_status s.status;
  tx_hash = patched_text p.to_tx_hash s.tx_hash;
  note = patched_text p.to_note s.note;
}

-- The first step with the id is patched.
unfoldable pub update : StepId → Patch → List DeployStep → List DeployStep
unfolding same_step assign
update id p [] = []
update id p (s ∷ steps) =
    let rest = update id p steps in if same_step s.id id then assign p s ∷ steps else s ∷ rest

unfoldable pub step_of : StepId → Text → DeployStep
step_of id label = record { id = id; label = label; status = pending; tx_hash = none; note = none }

unfoldable pub initial_steps : Text → List DeployStep
unfolding step_of
initial_steps asset =
    step_of seal (codes "Encrypt your confidential inputs")
    ∷ step_of deploy (codes "Create the policy contract")
    ∷ step_of configure (codes "Set the trigger")
    ∷ step_of handoff (codes "Hand the sealed policy to the enclave")
    ∷ step_of approve (codes "Approve " ++ asset)
    ∷ step_of deposit (codes "Deposit " ++ asset)
    ∷ []

-- The statuses, as a board of the six steps in their order.
abbrev pub statuses : List DeployStep → List (StepId × StepStatus)
statuses [] = []
statuses (s ∷ steps) = (s.id, s.status) ∷ statuses steps

abbrev pub board : (a b c d e f : StepStatus) → List (StepId × StepStatus)
board a b c d e f =
    (seal, a) ∷ (deploy, b) ∷ (configure, c) ∷ (handoff, d) ∷ (approve, e) ∷ (deposit, f) ∷ []

abbrev pub set_status :
    StepId → Option StepStatus → List (StepId × StepStatus) → List (StepId × StepStatus)
set_status id status [] = []
set_status id status ((i, s) ∷ more) =
    let rest = set_status id status more in
    if same_step i id then (i, patched status s) ∷ more else (i, s) ∷ rest

pub statuses-update :
    (id : StepId) (p : Patch) (steps : List DeployStep)
    → statuses (update id p steps) ≡ set_status id p.to_status (statuses steps)
unfolding update assign
statuses-update id p [] = refl
statuses-update id p (s ∷ steps) = ground (arith, statuses-update id p steps)

pub set_status-none : (id : StepId) (b : List (StepId × StepStatus)) → set_status id none b ≡ b
unfolding patched
set_status-none id [] = refl
set_status-none id ((i, s) ∷ b) = ground (arith, set_status-none id b)

pub set_status-twice :
    (id : StepId) (s t : StepStatus) (b : List (StepId × StepStatus))
    → set_status id (some t) (set_status id (some s) b) ≡ set_status id (some t) b
unfolding patched
set_status-twice id s t [] = refl
set_status-twice id s t ((i, u) ∷ b) = ground (arith, set_status-twice id s t b)
