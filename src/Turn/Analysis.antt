-- ===== src/Turn/Analysis.antt =====
-- The analysis branch of `_run_chat_turn`: code generation, the sandbox, and the records of its runs.
pub mod Recorded
pub mod Protection
use decyra_api.Common.{ℕ, Bool, Option, none, some, List, [], ◌∷◌, if◌then◌else◌}
use decyra_api.Common.Text.{Text, codes}
use decyra_api.Analysis.Loop.{ExecutionRecord, CodegenOutcome, Sandbox, generate_and_run}
use decyra_api.Documents.{Bytes, sanitize_filename}
use decyra_api.Llm.{complete_with_fallback}
use decyra_api.Pii.Anonymizer.{Anonymizer}
use decyra_api.Pii.Detect.{PiiStatus, anonymize_with}
use decyra_api.Store.{Db, CodeEvent, Msg, insert_code_execution_event}
use decyra_api.Turn.Request.{Upload, DataSchema, Env}
use decyra_api.Turn.Run.{Prepared, of_provider_error, or_empty}
use decyra_api.World.{Exc, unhandled, Exec, ◌>>=◌, ◌>>◌, pure, raise, catch, transact}

-- The body of the response, with `b64encode` a parameter.
pub record AnalysisResponse : Type 0 where
  pub content : Text
  pub effective_model : Text
  pub routed_to : Text
  pub pii_check : PiiStatus
  pub pii_detected : Bool
  pub anonymized : Bool
  pub pii_mode : Text
  pub chart_png_b64 : Option Text
  pub analysis_status : Text
  pub error : Option Text

-- `_ANALYSIS_FAILED_MSG`
abbrev pub analysis_failed_msg : Text
analysis_failed_msg =
    codes
      "Die Analyse konnte kein Diagramm erzeugen. Bitte formuliere die Frage praeziser oder pruefe die Datei und versuche es erneut."

abbrev pub analysis_ok_msg : Text
analysis_ok_msg = codes "Hier ist dein Diagramm."

unfoldable pub code_event : Text → Text → ExecutionRecord → CodeEvent
code_event ws user_id e = record {
  workspace_id = ws;
  user_id = user_id;
  status = e.status;
  generated_code = e.generated_code;
  chart_sha256 = e.chart_sha256;
}

unfoldable pub insert_executions : Text → Text → List ExecutionRecord → Db → Db
unfolding code_event
insert_executions ws user_id [] db = db
insert_executions ws user_id (e ∷ es) db =
    insert_executions ws user_id es (insert_code_execution_event db (code_event ws user_id e))

module _ (env : Env) where
  -- The call of a model in `_complete_fn`.
  unfoldable pub ask : Prepared → Option Anonymizer → List Msg → Exec (Text × Option Anonymizer)
  ask p anonymizer sent = do
    answered ← complete_with_fallback env.provider p.candidates sent
    pure (or_empty answered.1.content, anonymizer)

  -- `_complete_fn`. No handler catches the exception of a Presidio that is down.
  unfoldable pub complete_fn :
      Prepared → Option Anonymizer → List Msg → Exec (Text × Option Anonymizer)
  unfolding ask
  complete_fn p none messages = ask p none messages
  complete_fn p (some a) messages = elim (anonymize_with env.checker a messages) [
    | none ↦ raise unhandled
    | some (sent, a') ↦ ask p (some a') sent
  ]

  module _ (box : Sandbox) (b64encode : Bytes → Text) (max_retries : ℕ) (user_id : Text) where
    -- The chart, where there is one, and the fields that depend on it.
    unfoldable pub analysis_response : Prepared → CodegenOutcome → AnalysisResponse
    analysis_response p o =
        let chart : Option Text = elim o.chart_png [
          | none ↦ none
          | some png ↦ some (b64encode png)
        ] in
        record {
          content = if o.is_ok then analysis_ok_msg else analysis_failed_msg;
          effective_model = p.routed.effective_model;
          routed_to = p.routed.row.provider;
          pii_check = p.routed.outcome.status;
          pii_detected = p.routed.outcome.is_detected;
          anonymized = p.routed.anonymized;
          pii_mode = p.mode;
          chart_png_b64 = if o.is_ok then chart else none;
          analysis_status = if o.is_ok then codes "ok" else o.status;
          error = if o.is_ok then none else some analysis_failed_msg;
        }

    -- `generate_and_run` with its handlers.
    unfoldable pub run_codegen : Prepared → DataSchema → Upload → Exec CodegenOutcome
    unfolding complete_fn
    run_codegen p schema u =
        catch
          (generate_and_run box u.bytes (sanitize_filename u.filename) max_retries (complete_fn p)
            schema p.question p.routed.anonymizer)
          (λ e. raise (of_provider_error env.is_api_error e))

    -- What follows the loop: the records of its runs, and the response.
    unfoldable pub finish_analysis : Prepared → CodegenOutcome → Exec AnalysisResponse
    unfolding insert_executions analysis_response
    finish_analysis p o = do
      transact {A = Unit {0}} (λ db. (tt, insert_executions p.ws user_id o.executions db))
      pure (analysis_response p o)

    unfoldable pub run_analysis : Prepared → DataSchema → Upload → Exec AnalysisResponse
    unfolding run_codegen finish_analysis
    run_analysis p schema u = run_codegen p schema u >>= finish_analysis p
