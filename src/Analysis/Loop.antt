-- ===== src/Analysis/Loop.antt =====
-- app/analysis.py: `generate_and_run`, the bounded loop of code generation and sandbox runs.
use decyra_api.Common.{
  ℕ, zero, suc, ◌+◌, Bool, true, false, Option, none, some, List, [], ◌∷◌, ◌++◌, ◌==◌, nat_eq,
  list_eq, if◌then◌else◌,
}
use decyra_api.Common.Tests.{ltb}
use decyra_api.Common.Text.{Text, codes}
use decyra_api.Chat.{assistant, user}
use decyra_api.Documents.{Bytes}
use decyra_api.Pii.Anonymizer.{Anonymizer}
use decyra_api.Store.{Msg}
use decyra_api.Turn.Persist.{display}
use decyra_api.Turn.Request.{DataSchema}
use decyra_api.World.{Exec, ◌>>=◌, pure}
use decyra_api.Analysis.{SandboxResult, build_codegen_messages, build_retry_feedback}

pub record ExecutionRecord : Type 0 where
  pub generated_code : Text
  pub status : Text
  pub chart_sha256 : Option Text

pub record CodegenOutcome : Type 0 where
  pub is_ok : Bool
  pub chart_png : Option Bytes
  pub attempts : ℕ
  pub status : Text
  pub error_feedback : Text
  pub last_output : Text
  pub executions : List ExecutionRecord

-- The arguments of `runner.run`.
pub record SandboxRun : Type 0 where
  pub file_bytes : Bytes
  pub filename : Text
  pub code : Text

-- What is not in the repository: the sandbox, which sees the runs before and may fail with an exception
-- (`none`), SHA-256 in hexadecimal, and the table behind `\w`.
pub record Sandbox : Type 0 where
  pub run : List SandboxRun → SandboxRun → Option SandboxResult
  pub sha256 : Bytes → Text
  pub is_word : ℕ → Bool

-- What the loop carries from one attempt to the next. The anonymiser is shared with `complete_fn`, which
-- may mint placeholders.
pub record Attempt : Type 0 where
  pub number : ℕ
  pub messages : List Msg
  pub anonymizer : Option Anonymizer
  pub runs : List SandboxRun
  pub executions : List ExecutionRecord
  pub last_result : Option SandboxResult

-- `result.chart_png`, if `result.status == "ok"`
abbrev pub chart_of : SandboxResult → Option Bytes
chart_of r = if r.status == codes "ok" then r.chart_png else none

abbrev pub hash_of : (Bytes → Text) → Option Bytes → Option Text
hash_of sha256 none = none
hash_of sha256 (some png) = some (sha256 png)

module _ (box : Sandbox) where
  unfoldable pub executed : Text → SandboxResult → ExecutionRecord
  executed code r = record {
    generated_code = code;
    status = r.status;
    chart_sha256 = hash_of box.sha256 (chart_of r);
  }

  -- The outcome where the sandbox itself fails.
  unfoldable pub infra_error : Attempt → Text → CodegenOutcome
  infra_error t code = record {
    is_ok = false;
    chart_png = none;
    attempts = t.number;
    status = codes "infra_error";
    error_feedback = [];
    last_output = [];
    executions =
        t.executions
        ++ record { generated_code = code; status = codes "infra_error"; chart_sha256 = none } ∷ [];
  }

  unfoldable pub succeeded : Attempt → Text → SandboxResult → Bytes → CodegenOutcome
  unfolding executed
  succeeded t code r png = record {
    is_ok = true;
    chart_png = some png;
    attempts = t.number;
    status = codes "ok";
    error_feedback = [];
    last_output = r.output;
    executions = t.executions ++ executed code r ∷ [];
  }

  -- After the last attempt.
  unfoldable pub exhausted : ℕ → List ExecutionRecord → Option SandboxResult → CodegenOutcome
  exhausted max_retries executions none = record {
    is_ok = false;
    chart_png = none;
    attempts = max_retries;
    status = codes "error";
    error_feedback = [];
    last_output = [];
    executions = executions;
  }
  exhausted max_retries executions (some r) = record {
    is_ok = false;
    chart_png = none;
    attempts = max_retries;
    status = r.status;
    error_feedback = build_retry_feedback box.is_word r;
    last_output = r.output;
    executions = executions;
  }

  unfoldable pub with_feedback : ℕ → Attempt → Text → SandboxResult → List Msg
  with_feedback max_retries t code r =
      if ltb t.number max_retries
      then t.messages
        ++ record { role = assistant; content = code }
          ∷ record { role = user; content = build_retry_feedback box.is_word r }
          ∷ []
      else t.messages

  module _ (file_bytes : Bytes) (filename : Text) (max_retries : ℕ) where
    unfoldable pub run_of : Text × Option Anonymizer → SandboxRun
    run_of (code, anonymizer) = record {
      file_bytes = file_bytes;
      filename = filename;
      code = display anonymizer code;
    }

    -- The next attempt, after a run that gave no chart.
    unfoldable pub retry : Attempt → Text × Option Anonymizer → SandboxResult → Attempt
    unfolding run_of executed with_feedback
    retry t answer r = record {
      number = t.number + 1;
      messages = with_feedback max_retries t answer.0 r;
      anonymizer = answer.1;
      runs = t.runs ++ run_of answer ∷ [];
      executions = t.executions ++ executed answer.0 r ∷ [];
      last_result = some r;
    }

    -- What follows a run; `next` is the rest of the loop.
    unfoldable pub after_run :
        Attempt
        → Text × Option Anonymizer
        → Option SandboxResult
        → (Attempt → Exec CodegenOutcome)
        → Exec CodegenOutcome
    unfolding retry infra_error succeeded
    after_run t answer none next = pure (infra_error t answer.0)
    after_run t answer (some r) next = elim (chart_of r) [
      | some png ↦ pure (succeeded t answer.0 r png)
      | none ↦ next (retry t answer r)
    ]

    module _ (complete_fn : Option Anonymizer → List Msg → Exec (Text × Option Anonymizer)) where
      -- `for attempt in range(1, max_retries + 1)`, by the number of attempts left.
      unfoldable pub attempts_from : ℕ → Attempt → Exec CodegenOutcome
      unfolding after_run exhausted
      attempts_from zero t = pure (exhausted max_retries t.executions t.last_result)
      attempts_from (suc left) t = do
        answer ← complete_fn t.anonymizer t.messages
        after_run t answer (box.run t.runs (run_of answer)) (attempts_from left)

      unfoldable pub generate_and_run : DataSchema → Text → Option Anonymizer → Exec CodegenOutcome
      unfolding attempts_from
      generate_and_run schema question anonymizer = attempts_from max_retries (record {
        number = 1;
        messages = build_codegen_messages schema question;
        anonymizer = anonymizer;
        runs = [];
        executions = [];
        last_result = none;
      })
