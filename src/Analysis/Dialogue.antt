-- ===== src/Analysis/Dialogue.antt =====
-- What `generate_and_run` sends, and that it returns.
use decyra_api.Common.{
  ℕ, zero, suc, Bool, Option, none, some, List, [], ◌∷◌, ◌++◌, nat_eq, list_eq, Bool-cases,
  Option-cases, inl, inr,
}
use decyra_api.Common.Tests.{ltb}
use decyra_api.Common.Text.{Text}
use decyra_api.Chat.{assistant, user}
use decyra_api.Documents.{Bytes}
use decyra_api.Pii.Anonymizer.{Anonymizer}
use decyra_api.Store.{Msg}
use decyra_api.Turn.Request.{DataSchema}
use decyra_api.World.{World, Exec}
use decyra_api.World.Keeps.{
  Keeps, Keeps-pure, Keeps-bind-Yields, Yields, Returns, Returns-pure, Returns-bind,
}
use decyra_api.Analysis.{SandboxResult, build_codegen_messages, build_retry_feedback}
use decyra_api.Analysis.Loop.{
  CodegenOutcome, Sandbox, Attempt, chart_of, with_feedback, run_of, retry, after_run,
  attempts_from, generate_and_run,
}

-- The prompts of the loop: the first one, and one that repeats it with the code and a feedback behind it.
pub data IsDialogue (is_word : ℕ → Bool) (schema : DataSchema) (question : Text)
    : List Msg → Type 0 where
  opened : IsDialogue is_word schema question (build_codegen_messages schema question)
  continued :
      (ms : List Msg) (code : Text) (r : SandboxResult)
      → IsDialogue is_word schema question ms
      → IsDialogue is_word schema question (
          ms
          ++ record { role = assistant; content = code }
            ∷ record { role = user; content = build_retry_feedback is_word r }
            ∷ [])

-- The function that asks the model, with the anonymiser that it shares.
abbrev pub CompleteFn : Type 0
CompleteFn = Option Anonymizer → List Msg → Exec (Text × Option Anonymizer)

module _ (W : World → Type 0) (Q : Option Anonymizer → Type 0) (box : Sandbox) (file_bytes : Bytes)
    (filename : Text) (max_retries : ℕ) (schema : DataSchema) (question : Text) where
  with_feedback-IsDialogue :
      (t : Attempt) (code : Text) (r : SandboxResult)
      → IsDialogue box.is_word schema question t.messages
      → IsDialogue box.is_word schema question (with_feedback box max_retries t code r)
  unfolding with_feedback
  with_feedback-IsDialogue t code r h = elim (Bool-cases (ltb t.number max_retries)) [
    | inl e ↦ rw e (continued t.messages code r h)
    | inr e ↦ rw e h
  ]

  after_run-Keeps :
      (t : Attempt) (answer : Text × Option Anonymizer) (o : Option SandboxResult)
      (next : Attempt → Exec CodegenOutcome)
      → IsDialogue box.is_word schema question t.messages
      → Q answer.1
      → ((u : Attempt)
          → IsDialogue box.is_word schema question u.messages
          → Q u.anonymizer
          → Keeps W (next u))
      → Keeps W (after_run box file_bytes filename max_retries t answer o next)
  unfolding after_run retry
  after_run-Keeps t answer none next h q k = Keeps-pure _
  after_run-Keeps t answer (some r) next h q k = elim (Option-cases (chart_of r)) [
    | inl e ↦ rw (e, after_run) (k _ (with_feedback-IsDialogue t answer.0 r h) q)
    | inr (png, e) ↦ rw (e, after_run) (Keeps-pure _)
  ]

  -- What a call must do to the world and to the anonymiser on a prompt of the loop.
  pub record Serves (complete_fn : CompleteFn) (a : Option Anonymizer) (ms : List Msg)
      : Type 0 where
    pub keeps : Keeps W (complete_fn a ms)
    pub yields : Yields (λ answer. Q answer.1) (complete_fn a ms)

  module _ (complete_fn : CompleteFn)
      (serves : (a : Option Anonymizer) (ms : List Msg)
        → Q a
        → IsDialogue box.is_word schema question ms
        → Serves complete_fn a ms) where
    attempts_from-Keeps :
        (left : ℕ) (t : Attempt)
        → IsDialogue box.is_word schema question t.messages
        → Q t.anonymizer
        → Keeps W (attempts_from box file_bytes filename max_retries complete_fn left t)
    unfolding attempts_from
    attempts_from-Keeps zero t h q = Keeps-pure _
    attempts_from-Keeps (suc left) t h q =
        let served = serves t.anonymizer t.messages q h in
        Keeps-bind-Yields (λ answer. Q answer.1) _ _ served.keeps served.yields
          (λ answer p.
            after_run-Keeps t answer
              (box.run t.runs (run_of box file_bytes filename max_retries answer)) _ h p
              (attempts_from-Keeps left))

    -- What `complete_fn` keeps on the prompts of the loop, the loop keeps.
    pub generate_and_run-Keeps :
        (anonymizer : Option Anonymizer)
        → Q anonymizer
        → Keeps W (
            generate_and_run box file_bytes filename max_retries complete_fn schema question
              anonymizer)
    unfolding generate_and_run
    generate_and_run-Keeps anonymizer q = attempts_from-Keeps max_retries _ opened q

module _ (box : Sandbox) (file_bytes : Bytes) (filename : Text) (max_retries : ℕ) where
  after_run-Returns :
      (t : Attempt) (answer : Text × Option Anonymizer) (o : Option SandboxResult)
      (next : Attempt → Exec CodegenOutcome)
      → ((u : Attempt) → Returns (next u))
      → Returns (after_run box file_bytes filename max_retries t answer o next)
  unfolding after_run
  after_run-Returns t answer none next k = Returns-pure _
  after_run-Returns t answer (some r) next k = elim (Option-cases (chart_of r)) [
    | inl e ↦ rw (e, after_run) (k _)
    | inr (png, e) ↦ rw (e, after_run) (Returns-pure _)
  ]

  attempts_from-Returns :
      (complete_fn : CompleteFn)
      → ((a : Option Anonymizer) (ms : List Msg) → Returns (complete_fn a ms))
      → (left : ℕ) (t : Attempt)
      → Returns (attempts_from box file_bytes filename max_retries complete_fn left t)
  unfolding attempts_from
  attempts_from-Returns complete_fn h zero t = Returns-pure _
  attempts_from-Returns complete_fn h (suc left) t =
      Returns-bind _ _ (h t.anonymizer t.messages) (λ answer.
        after_run-Returns t answer
          (box.run t.runs (run_of box file_bytes filename max_retries answer)) _
          (attempts_from-Returns complete_fn h left))

  -- Where every call of the model returns a code, the loop returns an outcome and raises nothing,
  -- whatever the sandbox does, its own failures included.
  pub generate_and_run-Returns :
      (complete_fn : CompleteFn)
      → ((a : Option Anonymizer) (ms : List Msg) → Returns (complete_fn a ms))
      → (schema : DataSchema) (question : Text) (anonymizer : Option Anonymizer)
      → Returns (
          generate_and_run box file_bytes filename max_retries complete_fn schema question
            anonymizer)
  unfolding generate_and_run
  generate_and_run-Returns complete_fn h schema question anonymizer =
      attempts_from-Returns complete_fn h max_retries _
