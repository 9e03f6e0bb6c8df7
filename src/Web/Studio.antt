-- ===== src/Web/Studio.antt =====
-- apps/web/app/studio/[templateId]/page.tsx and apps/web/components/review-drawer.tsx: the draft that
-- the builder holds, and its review. A trigger that was edited is taken to be one of the schema's.
pub mod Review
use flare_studio.Base.Text.{Text, codes, text_eq}
use flare_studio.Base.Decimal.{decimal}
use flare_studio.Base.{
  ℕ, ◌%◌, ◌/◌, true, Bool, false, Option, none, some, List, [], ◌∷◌, ◌++◌, Result, ok, err, find?,
  map, leb, ◌==◌, ◌&&◌, if◌then◌else◌,
}
use flare_studio.Policy.Schema.{
  Trigger, manual_heartbeat, chain_proof_of_life, timestamp, Recipient, Action, split_transfer,
  Condition, PolicyIr, ShapeParser,
}
use flare_studio.Policy.Commitment.{Viem}
use flare_studio.Policy.Compile.{CompiledPolicy, CompileError, compile}
use flare_studio.Policy.Templates.{TemplateArgs, TemplateDefinition, templates, default_to}
use flare_studio.Web.Durations.{rounded_days}
use flare_studio.Web.Canvas.{
  DraftAction, transfer, DraftIr, known_trigger, known_condition, DateFormat, CanvasError,
  CanvasGraph, format_date, graph_from_ir,
}

-- `TEMPLATES.find((t) => t.id === params.templateId)`: nothing is a 404.
unfoldable pub builder_template : Text → Option TemplateDefinition
unfolding templates
builder_template id = find? (λ t. text_eq t.id id) templates

unfoldable pub initial_recipients : List Recipient
initial_recipients =
    record {
      address = codes "0x1111111111111111111111111111111111111111";
      share_bps = 6000;
      label = some (codes "Partner");
    }
    ∷ record {
      address = codes "0x2222222222222222222222222222222222222222";
      share_bps = 4000;
      label = some (codes "Child");
    }
    ∷ []

abbrev pub builder_args : List Recipient → TemplateArgs
builder_args recipients = record {
  name = none;
  recipients = recipients;
  interval_seconds = none;
  execute_after = none;
  demo_mode = some true;
}

-- `template.build({ recipients, demoMode: true })`, with the trigger that was edited in its place.
unfoldable pub builder_ir :
    TemplateDefinition → (now : ℕ) → List Recipient → (edited : Option Trigger) → PolicyIr
unfolding default_to
builder_ir template now recipients edited =
    let seeded = template.build now (builder_args recipients) in
    record seeded { trigger = default_to seeded.trigger edited }

unfoldable pub draft_action : Action → DraftAction
draft_action (split_transfer recipients) = transfer (some recipients)

-- The built policy as a draft.
unfoldable pub draft_of : PolicyIr → DraftIr
unfolding draft_action
draft_of ir = record {
  name = some ir.name;
  asset = ir.asset;
  trigger = some (known_trigger ir.trigger);
  conditions = some (map known_condition ir.conditions);
  actions = some (map draft_action ir.actions);
}

unfoldable pub builder_graph :
    DateFormat
    → TemplateDefinition
    → (now : ℕ) → List Recipient
    → (edited : Option Trigger) → Result CanvasError CanvasGraph
unfolding builder_ir draft_of
builder_graph format template now recipients edited =
    graph_from_ir format (draft_of (builder_ir template now recipients edited))

-- The drawer compiles the draft: "Deploy policy" is enabled just with what compiled, and else the error
-- is shown.
unfoldable pub reviewed :
    {Input : Type 0}
    → ShapeParser Input
    → Viem
    → Input
    → Text
    → Option CompiledPolicy × Option CompileError
reviewed zod viem input salt = elim (compile zod viem input salt) [
  | ok compiled ↦ (some compiled, none)
  | err e ↦ (none, some e)
]

unfoldable pub counted_words : ℕ → Text → Text → Text
counted_words n one many = if n == 1 then one else decimal n ++ many

-- The drawer's own `formatInterval`.
unfoldable pub review_interval : ℕ → Text
unfolding rounded_days counted_words
review_interval seconds =
    let n = rounded_days seconds in
    if leb 365 n && n % 365 == 0
    then counted_words (n / 365) (codes "one year") (codes " years")
    else if leb 30 n && n % 30 == 0
    then counted_words (n / 30) (codes "one month") (codes " months")
    else counted_words n (codes "one day") (codes " days")

-- When the policy runs, in the summary's words: the emphasised part.
unfoldable pub review_trigger : DateFormat → Trigger → Result CanvasError Text
unfolding format_date review_interval
review_trigger format (timestamp execute_after) = format_date format execute_after
review_trigger format (manual_heartbeat interval demo_mode) = ok (review_interval interval)
review_trigger format (chain_proof_of_life interval source to least) = ok (review_interval interval)
