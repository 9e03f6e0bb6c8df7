-- ===== src/Orchestrator/Instructions/Sending.antt =====
-- Which event of a receipt names the instruction.
use flare_studio.Base.Text.{Text}
use flare_studio.Base.{
  Option, some, List, [], ◌∷◌, Result, ok, ◌≡◌, ◌≢◌, ◌↔◌, ◌⊎◌, inl, inr, sym, ap, ◌∙◌, arith,
  Result-cases, Option-cases,
}
use flare_studio.Orchestrator.Instructions.{extract_instruction_id}

-- The first log that decodes to the event carries `id`; no log before it does.
abbrev pub FirstEvent :
    {Log : Type 0} → (Log → Result Text (Option Text)) → Text → List Log → Type 0
FirstEvent decode id [] = ⊥
FirstEvent decode id (log ∷ logs) =
    (decode log ≡ ok (some id))
    ⊎ (((other : Text) → decode log ≢ ok (some other)) × FirstEvent decode id logs)

-- A log that is passed over.
passed :
    {Log : Type 0} (decode : Log → Result Text (Option Text)) (id : Text) (log : Log)
    (logs : List Log)
    → extract_instruction_id decode (log ∷ logs) ≡ extract_instruction_id decode logs
    → ((other : Text) → decode log ≢ ok (some other))
    → (extract_instruction_id decode logs ≡ ok id) ↔ FirstEvent decode id logs
    → (extract_instruction_id decode (log ∷ logs) ≡ ok id) ↔ FirstEvent decode id (log ∷ logs)
passed decode id log logs same none_such rest = (
  λ e. inr (none_such, rest.0 (sym same ∙ e)),
  λ first. elim first [ inl p ↦ absurd (none_such id p) | inr (_, later) ↦ same ∙ rest.1 later ],
)

-- The id that is read from a receipt is that of its first TeeInstructionsSent event, wherever in the
-- logs that stands, and whichever logs before it do not decode.
pub extract_instruction_id-eq-ok_iff :
    {Log : Type 0} (decode : Log → Result Text (Option Text)) (id : Text) (logs : List Log)
    → (extract_instruction_id decode logs ≡ ok id) ↔ FirstEvent decode id logs
unfolding extract_instruction_id
extract_instruction_id-eq-ok_iff decode id [] = ground arith
extract_instruction_id-eq-ok_iff decode id (log ∷ logs) = elim (Result-cases (decode log)) [
  | inr (e, threw) ↦
      passed decode id log logs (rw (threw, extract_instruction_id)) (λ other p. cc)
        (extract_instruction_id-eq-ok_iff decode id logs)
  | inl (found, decoded) ↦ elim (Option-cases found) [
    | inl other ↦
        passed decode id log logs (rw (decoded, extract_instruction_id) (rw other)) (λ text p. cc)
          (extract_instruction_id-eq-ok_iff decode id logs)
    | inr (here, is) ↦ (
      λ e.
          let step : extract_instruction_id decode (log ∷ logs) ≡ ok here =
            rw (decoded, extract_instruction_id) (rw is) in
          let same : Path (Result Text Text) (ok here) (ok id) = sym step ∙ e in
          let at : here ≡ id = ground arith in inl (decoded ∙ ap ok is ∙ ap (λ t. ok (some t)) at),
      λ first. elim first [
        | inl p ↦ rw (p, extract_instruction_id)
        | inr (none_such, later) ↦ absurd (none_such here (decoded ∙ ap ok is))
      ],
    )
  ]
]
