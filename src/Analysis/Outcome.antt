-- ===== src/Analysis/Outcome.antt =====
-- What `generate_and_run` returns.
use decyra_api.Common.{
  ℕ, zero, suc, ◌+◌, ◌≤◌, ◌≡◌, ◌⊎◌, refl, ap, ◌∙◌, true, false, Option, none, some, List, [], ◌∷◌,
  ◌++◌, arith, nat_eq, list_eq, length, length-append, All, All-append, Option-cases, inl, inr,
}
use decyra_api.Common.Text.{Text}
use decyra_api.Documents.{Bytes}
use decyra_api.Pii.Anonymizer.{Anonymizer}
use decyra_api.Store.{Msg}
use decyra_api.Turn.Request.{DataSchema}
use decyra_api.World.{Exec}
use decyra_api.World.Keeps.{Yields, Yields-bind-Yields, Yields-pure}
use decyra_api.Analysis.{SandboxResult}
use decyra_api.Analysis.Safe.{IsFixed, IsScrubbed, build_retry_feedback-IsScrubbed}
use decyra_api.Analysis.Loop.{
  ExecutionRecord, CodegenOutcome, Sandbox, Attempt, chart_of, hash_of, executed, infra_error,
  succeeded, exhausted, run_of, retry, after_run, attempts_from, generate_and_run,
}

-- A record that tells of no chart.
abbrev HasNoChart : ExecutionRecord → Type 0
HasNoChart e = e.chart_sha256 ≡ none

-- A feedback that says nothing, or nothing of what a run printed but a line and an error's name.
abbrev pub IsSafe : Text → Type 0
IsSafe f = (f ≡ []) ⊎ (IsFixed f ⊎ IsScrubbed f)

-- How the outcome tells of its chart: the last record has its hash, the others have none.
pub record Charted (sha256 : Bytes → Text) (o : CodegenOutcome) : Type 0 where
  pub png : Bytes
  pub before : List ExecutionRecord
  pub last : ExecutionRecord
  pub chart : o.chart_png ≡ some png
  pub split : o.executions ≡ before ++ last ∷ []
  pub hashed : last.chart_sha256 ≡ some (sha256 png)
  pub others : All HasNoChart before

pub record Failed (o : CodegenOutcome) : Type 0 where
  pub no_chart : o.chart_png ≡ none
  pub no_hash : All HasNoChart o.executions
  pub safe : IsSafe o.error_feedback

-- An outcome of at most so many attempts, on codes that satisfy the predicate.
pub record Completed (P : Text → Type 0) (sha256 : Bytes → Text) (max_retries : ℕ)
    (o : CodegenOutcome) : Type 0 where
  pub counted : length o.executions ≡ o.attempts
  pub bounded : o.attempts ≤ max_retries
  pub generated : All (λ (e : ExecutionRecord). P e.generated_code) o.executions
  pub chart : o.is_ok ≡ true → Charted sha256 o
  pub failed : o.is_ok ≡ false → Failed o

-- An attempt with so many to follow.
record IsReady (P : Text → Type 0) (max_retries left : ℕ) (t : Attempt) : Type 0 where
  pub number : t.number + left ≡ max_retries + 1
  pub counted : length t.executions + 1 ≡ t.number
  pub generated : All (λ (e : ExecutionRecord). P e.generated_code) t.executions
  pub no_hash : All HasNoChart t.executions

module _ (P : Text → Type 0) (box : Sandbox) (file_bytes : Bytes) (filename : Text)
    (max_retries : ℕ) where
  infra_error-Completed :
      (left : ℕ) (t : Attempt) (code : Text)
      → P code
      → IsReady P max_retries (suc left) t
      → Completed P box.sha256 max_retries (infra_error box t code)
  unfolding infra_error
  infra_error-Completed left t code p h = record {
    counted = length-append t.executions _ ∙ h.counted;
    bounded = omega (arith, h.number);
    generated = All-append _ t.executions _ h.generated (p, tt);
    chart = λ e. absurd (cc (e));
    failed = λ e. record {
      no_chart = refl;
      no_hash = All-append _ t.executions _ h.no_hash (refl, tt);
      safe = inl refl;
    };
  }

  succeeded-Completed :
      (left : ℕ) (t : Attempt) (code : Text) (r : SandboxResult) (png : Bytes)
      → chart_of r ≡ some png
      → P code
      → IsReady P max_retries (suc left) t
      → Completed P box.sha256 max_retries (succeeded box t code r png)
  unfolding succeeded executed
  succeeded-Completed left t code r png found p h = record {
    counted = length-append t.executions _ ∙ h.counted;
    bounded = omega (arith, h.number);
    generated = All-append _ t.executions _ h.generated (p, tt);
    chart = λ e. record {
      png = png;
      before = t.executions;
      last = executed box code r;
      chart = refl;
      split = refl;
      hashed = ap (hash_of box.sha256) found;
      others = h.no_hash;
    };
    failed = λ e. absurd (cc (e));
  }

  exhausted-Completed :
      (t : Attempt)
      → IsReady P max_retries zero t
      → (last : Option SandboxResult)
      → Completed P box.sha256 max_retries (exhausted box max_retries t.executions last)
  unfolding exhausted
  exhausted-Completed t h none = record {
    counted = omega (arith, h.number, h.counted);
    bounded = omega arith;
    generated = h.generated;
    chart = λ e. absurd (cc (e));
    failed = λ e. record { no_chart = refl; no_hash = h.no_hash; safe = inl refl };
  }
  exhausted-Completed t h (some r) = record {
    counted = omega (arith, h.number, h.counted);
    bounded = omega arith;
    generated = h.generated;
    chart = λ e. absurd (cc (e));
    failed = λ e. record {
      no_chart = refl;
      no_hash = h.no_hash;
      safe = inr (build_retry_feedback-IsScrubbed box.is_word r);
    };
  }

  retry-IsReady :
      (left : ℕ) (t : Attempt) (answer : Text × Option Anonymizer) (r : SandboxResult)
      → chart_of r ≡ none
      → P answer.0
      → IsReady P max_retries (suc left) t
      → IsReady P max_retries left (retry box file_bytes filename max_retries t answer r)
  unfolding retry executed
  retry-IsReady left t answer r none_found p h = record {
    number = omega (arith, h.number);
    counted = omega (arith, length-append t.executions (executed box answer.0 r ∷ []), h.counted);
    generated = All-append _ t.executions _ h.generated (p, tt);
    no_hash = All-append _ t.executions _ h.no_hash (ap (hash_of box.sha256) none_found, tt);
  }

  after_run-Completed :
      (left : ℕ) (t : Attempt) (answer : Text × Option Anonymizer) (o : Option SandboxResult)
      (next : Attempt → Exec CodegenOutcome)
      → P answer.0
      → IsReady P max_retries (suc left) t
      → ((u : Attempt)
          → IsReady P max_retries left u
          → Yields (Completed P box.sha256 max_retries) (next u))
      → Yields
          (Completed P box.sha256 max_retries)
          (after_run box file_bytes filename max_retries t answer o next)
  unfolding after_run
  after_run-Completed left t answer none next p h k =
      Yields-pure _ (infra_error-Completed left t answer.0 p h)
  after_run-Completed left t answer (some r) next p h k = elim (Option-cases (chart_of r)) [
    | inl e ↦ rw (e, after_run) (k _ (retry-IsReady left t answer r e p h))
    | inr (png, e) ↦
        rw (e, after_run) (Yields-pure _ (succeeded-Completed left t answer.0 r png e p h))
  ]

  attempts_from-Completed :
      (complete_fn : Option Anonymizer → List Msg → Exec (Text × Option Anonymizer))
      → ((a : Option Anonymizer) (ms : List Msg) → Yields (λ answer. P answer.0) (complete_fn a ms))
      → (left : ℕ) (t : Attempt) → IsReady P max_retries left t
      → Yields
          (Completed P box.sha256 max_retries)
          (attempts_from box file_bytes filename max_retries complete_fn left t)
  unfolding attempts_from
  attempts_from-Completed complete_fn codes_ok zero t h =
      Yields-pure _ (exhausted-Completed t h t.last_result)
  attempts_from-Completed complete_fn codes_ok (suc left) t h =
      Yields-bind-Yields (λ answer. P answer.0) (Completed P box.sha256 max_retries) _ _
        (codes_ok t.anonymizer t.messages)
        (λ answer p.
          after_run-Completed left t answer
            (box.run t.runs (run_of box file_bytes filename max_retries answer)) _ p h
            (attempts_from-Completed complete_fn codes_ok left))

  -- Whatever the sandbox does, an outcome of the loop counts one record for each attempt, of which there
  -- are at most `max_retries`, and every code on record satisfies what all codes that `complete_fn`
  -- returns satisfy. If the outcome is a success, it carries a chart whose hash is in the last record and
  -- in no other. If not, it carries no chart and no hash, and its feedback is empty or scrubbed.
  pub generate_and_run-Completed :
      (complete_fn : Option Anonymizer → List Msg → Exec (Text × Option Anonymizer))
      → ((a : Option Anonymizer) (ms : List Msg) → Yields (λ answer. P answer.0) (complete_fn a ms))
      → (schema : DataSchema) (question : Text) (anonymizer : Option Anonymizer)
      → Yields (Completed P box.sha256 max_retries) (
          generate_and_run box file_bytes filename max_retries complete_fn schema question
            anonymizer)
  unfolding generate_and_run
  generate_and_run-Completed complete_fn codes_ok schema question anonymizer =
      attempts_from-Completed complete_fn codes_ok max_retries _
        (record { number = omega arith; counted = omega arith; generated = tt; no_hash = tt })
