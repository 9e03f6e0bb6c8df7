-- ===== src/Web/Canvas/Ids.antt =====
-- The ids of nodes tell the nodes apart.
use flare_studio.Base.Text.{Text, codes, text_eq, text_eq_iff}
use flare_studio.Base.Decimal.{decimal, value_from, value_from-decimal}
use flare_studio.Base.{ℕ, false, [], ◌∷◌, ◌++◌, ◌≡◌, ◌≢◌, refl, sym, ap, ◌∙◌}
use flare_studio.Web.Canvas.{asset_id, trigger_id, confidential_id, condition_id, action_id}

pub decimal_inj : (m n : ℕ) → decimal m ≡ decimal n → m ≡ n
decimal_inj m n h = sym (value_from-decimal m) ∙ ap (λ t. value_from 0 t) h ∙ value_from-decimal n

append_inj : (p s t : Text) → p ++ s ≡ p ++ t → s ≡ t
append_inj [] s t h = h
append_inj (c ∷ p) s t h = append_inj p s t (cc h)

apart : (s t : Text) → text_eq s t ≡ false → s ≢ t
apart s t h e = let same = (text_eq_iff s t).1 e in cc

pub condition_id_inj : (i j : ℕ) → condition_id i ≡ condition_id j → i ≡ j
unfolding condition_id
condition_id_inj i j h = decimal_inj i j (append_inj (codes "condition-") (decimal i) (decimal j) h)

pub action_id_inj : (i j : ℕ) → action_id i ≡ action_id j → i ≡ j
unfolding action_id
action_id_inj i j h = decimal_inj i j (append_inj (codes "action-") (decimal i) (decimal j) h)

pub asset-ne-condition : (i : ℕ) → asset_id ≢ condition_id i
unfolding condition_id text_eq
asset-ne-condition i = apart (asset_id) (condition_id i) refl

pub asset-ne-action : (i : ℕ) → asset_id ≢ action_id i
unfolding action_id text_eq
asset-ne-action i = apart (asset_id) (action_id i) refl

pub trigger-ne-condition : (i : ℕ) → trigger_id ≢ condition_id i
unfolding condition_id text_eq
trigger-ne-condition i = apart (trigger_id) (condition_id i) refl

pub trigger-ne-action : (i : ℕ) → trigger_id ≢ action_id i
unfolding action_id text_eq
trigger-ne-action i = apart (trigger_id) (action_id i) refl

pub condition-ne-confidential : (i : ℕ) → condition_id i ≢ confidential_id
unfolding condition_id text_eq
condition-ne-confidential i = apart (condition_id i) (confidential_id) refl

pub condition-ne-action : (i j : ℕ) → condition_id i ≢ action_id j
unfolding condition_id action_id text_eq
condition-ne-action i j = apart (condition_id i) (action_id j) refl

pub confidential-ne-action : (i : ℕ) → confidential_id ≢ action_id i
unfolding action_id text_eq
confidential-ne-action i = apart (confidential_id) (action_id i) refl

pub asset-ne-confidential : asset_id ≢ confidential_id
unfolding text_eq
asset-ne-confidential = apart asset_id confidential_id refl

pub trigger-ne-confidential : trigger_id ≢ confidential_id
unfolding text_eq
trigger-ne-confidential = apart trigger_id confidential_id refl
