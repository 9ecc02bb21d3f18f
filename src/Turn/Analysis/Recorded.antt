-- ===== src/Turn/Analysis/Recorded.antt =====
-- What an analysis turn leaves in the database.
use decyra_api.Common.{
  ℕ, ◌≡◌, refl, sym, ap, ◌∙◌, Option, none, some, List, [], ◌∷◌, ◌++◌, append_assoc, append-nil,
  map, Option-cases, inl, inr,
}
use decyra_api.Common.Text.{Text}
use decyra_api.Analysis.Loop.{ExecutionRecord, CodegenOutcome, Sandbox}
use decyra_api.Analysis.Outcome.{Completed, generate_and_run-Completed}
use decyra_api.Analysis.Dialogue.{generate_and_run-Keeps}
use decyra_api.Documents.{Bytes, sanitize_filename}
use decyra_api.Llm.{Answer}
use decyra_api.Llm.Answers.{
  SameDb, GivenBy, complete_with_fallback-SameDb, complete_with_fallback-Given,
}
use decyra_api.Pii.Anonymizer.{Anonymizer}
use decyra_api.Pii.Detect.{anonymize_with}
use decyra_api.Store.{Db, Msg, insert_code_execution_event}
use decyra_api.Turn.Analysis.{
  AnalysisResponse, code_event, insert_executions, ask, complete_fn, analysis_response, run_codegen,
  finish_analysis, run_analysis,
}
use decyra_api.Turn.Request.{Upload, DataSchema, Env}
use decyra_api.Turn.Run.{Prepared, or_empty}
use decyra_api.World.{
  World, Outcome, ok, raised, Exc, unhandled, Exec, ◌>>=◌, ◌>>◌, pure, raise, catch, transact,
}
use decyra_api.World.Keeps.{
  Keeps, Keeps-pure, Keeps-raise, Keeps-bind, Keeps-catch, Yields, Yields-pure, Yields-bind-Yields,
  Ensures,
}

-- The text is what a provider answered, word for word.
abbrev pub IsAnswer : Env → Text → Type 0
IsAnswer env code = (a : Answer) × GivenBy env.provider a × (code ≡ or_empty a.content)

module _ (env : Env) (p : Prepared) where
  complete_fn-IsAnswer :
      (a : Option Anonymizer) (ms : List Msg)
      → Yields (λ answer. IsAnswer env answer.0) (complete_fn env p a ms)
  unfolding complete_fn ask raise
  complete_fn-IsAnswer none ms =
      Yields-bind-Yields (λ x. GivenBy env.provider x.1) (λ answer. IsAnswer env answer.0) _ _
        (complete_with_fallback-Given env.provider ms p.candidates)
        (λ x given. Yields-pure _ (x.1, given, refl))
  complete_fn-IsAnswer (some a) ms = elim (Option-cases (anonymize_with env.checker a ms)) [
    | inl e ↦ rw (e, complete_fn) (record { at = λ w. tt })
    | inr (r, e) ↦
        rw (e, complete_fn)
          (Yields-bind-Yields (λ x. GivenBy env.provider x.1) (λ answer. IsAnswer env answer.0) _ _
            (complete_with_fallback-Given env.provider r.0 p.candidates)
            (λ x given. Yields-pure _ (x.1, given, refl)))
  ]

  complete_fn-SameDb :
      (db : Db) (a : Option Anonymizer) (ms : List Msg) → Keeps (SameDb db) (complete_fn env p a ms)
  unfolding complete_fn ask
  complete_fn-SameDb db none ms =
      Keeps-bind _ _ (complete_with_fallback-SameDb db env.provider ms p.candidates)
        (λ x. Keeps-pure _)
  complete_fn-SameDb db (some a) ms = elim (Option-cases (anonymize_with env.checker a ms)) [
    | inl e ↦ rw (e, complete_fn) (Keeps-raise unhandled)
    | inr (r, e) ↦
        rw (e, complete_fn)
          (Keeps-bind _ _ (complete_with_fallback-SameDb db env.provider r.0 p.candidates)
            (λ x. Keeps-pure _))
  ]

insert_executions-code_events :
    (ws user_id : Text) (es : List ExecutionRecord) (db : Db)
    → insert_executions ws user_id es db
      ≡ record db { code_events = db.code_events ++ map (code_event ws user_id) es }
unfolding insert_executions insert_code_execution_event
insert_executions-code_events ws user_id [] db =
    ap (λ events. record db { code_events = events }) (sym (append-nil db.code_events))
insert_executions-code_events ws user_id (e ∷ es) db =
    insert_executions-code_events ws user_id es _
    ∙ ap (λ events. record db { code_events = events })
        (append_assoc db.code_events (code_event ws user_id e ∷ [])
          (map (code_event ws user_id) es))

-- What follows an operation that leaves the database as it is.
bind-SameDb :
    {A B : Type 0} (db : Db) (Q : A → Type 0) (R : Outcome B × World → Type 0) (m : Exec A)
    (f : A → Exec B)
    → Keeps (SameDb db) m
    → Yields Q m
    → ((e : Exc) (w : World) → SameDb db w → R (raised e, w))
    → ((a : A) (w : World) → Q a → SameDb db w → R (f a w))
    → (w : World) → SameDb db w
    → R ((m >>= f) w)
unfolding ◌>>=◌
bind-SameDb {A} {B} db Q R m f km ym on_error on_result w h =
    after (m w).0 (m w).1 (ym.at w) (km.at w h)
  where
    after :
        (r : Outcome A) (w' : World)
        → Ensures Q r
        → SameDb db w'
        → R (elim r as (λ _. Outcome B × World) [ ok a ↦ f a w' | raised e ↦ (raised e, w') ])
    after (ok a) w' q h = on_result a w' q h
    after (raised e) w' q h = on_error e w' h

Yields-catch :
    {A : Type 0} (Q : A → Type 0) (m : Exec A) (g : Exc → Exc)
    → Yields Q m
    → Yields Q (catch m (λ e. raise (g e)))
unfolding catch raise
Yields-catch {A} Q m g y = record { at = λ w. after (m w).0 (m w).1 (y.at w) }
  where
    after :
        (r : Outcome A) (w' : World)
        → Ensures Q r
        → Ensures Q
            (elim r as (λ _. Outcome A × World) [
              | ok a ↦ (ok a, w')
              | raised e ↦ (raised (g e), w')
            ]).0
    after (ok a) w' q = q
    after (raised e) w' q = tt

pub anything : {A : Type 0} (o : Outcome A) → Ensures (λ a. Unit) o
anything (ok a) = tt
anything (raised e) = tt

-- The database after an analysis: the records of the runs that its outcome counts, or nothing new.
abbrev pub Recorded :
    Env
    → Sandbox
    → (Bytes → Text)
    → ℕ
    → Text
    → Prepared
    → Db
    → Outcome AnalysisResponse × World
    → Type 0
Recorded env box b64encode max_retries user_id p db (raised e, w) = w.db ≡ db
Recorded env box b64encode max_retries user_id p db (ok r, w) =
    (o : CodegenOutcome) × Completed (IsAnswer env) box.sha256 max_retries o
    × (r ≡ analysis_response env box b64encode max_retries user_id p o)
    × (w.db
        ≡ record db { code_events = db.code_events ++ map (code_event p.ws user_id) o.executions })

module _ (env : Env) (box : Sandbox) (b64encode : Bytes → Text) (max_retries : ℕ) (user_id : Text)
    (p : Prepared) where
  finish_analysis-Recorded :
      (db : Db) (o : CodegenOutcome) (w : World)
      → Completed (IsAnswer env) box.sha256 max_retries o
      → SameDb db w
      → Recorded env box b64encode max_retries user_id p db
          (finish_analysis env box b64encode max_retries user_id p o w)
  unfolding finish_analysis transact ◌>>=◌ ◌>>◌ pure
  finish_analysis-Recorded db o w q h = (
    o,
    q,
    refl,
    insert_executions-code_events p.ws user_id o.executions w.db
        ∙ ap
            (λ (d : Db). record d {
              code_events = d.code_events ++ map (code_event p.ws user_id) o.executions;
            })
            h,
  )

  module _ (schema : DataSchema) (u : Upload) where
    run_codegen-Completed :
        Yields
          (Completed (IsAnswer env) box.sha256 max_retries)
          (run_codegen env box b64encode max_retries user_id p schema u)
    unfolding run_codegen
    run_codegen-Completed = Yields-catch _ _ _ (
        generate_and_run-Completed (IsAnswer env) box u.bytes (sanitize_filename u.filename)
          max_retries (complete_fn env p) (complete_fn-IsAnswer env p) schema p.question
          p.routed.anonymizer)

    run_codegen-SameDb :
        (db : Db) → Keeps (SameDb db) (run_codegen env box b64encode max_retries user_id p schema u)
    unfolding run_codegen
    run_codegen-SameDb db =
        Keeps-catch _ _
          (generate_and_run-Keeps (SameDb db) (λ a. Unit) box u.bytes (sanitize_filename u.filename)
            max_retries schema p.question (complete_fn env p)
            (λ a ms q d. record {
              keeps = complete_fn-SameDb env p db a ms;
              yields = record { at = λ w. anything (complete_fn env p a ms w).0 };
            })
            p.routed.anonymizer tt)
          (λ e. Keeps-raise _)

    -- An analysis turn that answers leaves in the database what was there, and one record for each run of
    -- the sandbox that its outcome counts, with the code that a provider answered, word for word; the
    -- response tells of that outcome. One that ends with an error leaves the database as it was.
    pub run_analysis-Recorded :
        (w : World)
        → Recorded env box b64encode max_retries user_id p w.db
            (run_analysis env box b64encode max_retries user_id p schema u w)
    unfolding run_analysis
    run_analysis-Recorded w =
        bind-SameDb w.db (Completed (IsAnswer env) box.sha256 max_retries)
          (Recorded env box b64encode max_retries user_id p w.db) _ _ (run_codegen-SameDb w.db)
          run_codegen-Completed (λ e w' h. h) (λ o w' q h. finish_analysis-Recorded w.db o w' q h) w
          refl
