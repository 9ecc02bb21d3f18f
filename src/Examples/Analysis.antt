-- ===== src/Examples/Analysis.antt =====
-- Runs of the analysis loop, and its theorems at concrete inputs.
use decyra_api.Common.{
  ◌≡◌, ◌⊎◌, refl, false, Option, none, some, List, [], ◌∷◌, ◌++◌, nat_eq, list_eq,
}
use decyra_api.Common.Text.{Text, codes, is_ascii_letter, is_digit, starts_with, join}
use decyra_api.Analysis.{SandboxResult, build_retry_feedback, generic_fix_hint, last_part}
use decyra_api.Analysis.Dialogue.{generate_and_run-Returns}
use decyra_api.Analysis.Loop.{Sandbox, SandboxRun, generate_and_run}
use decyra_api.Analysis.Outcome.{Completed, generate_and_run-Completed}
use decyra_api.Analysis.Safe.{IsFixed, IsScrubbed, build_retry_feedback-IsScrubbed}
use decyra_api.Documents.{Bytes}
use decyra_api.Examples.{some_env, some_world, eu_model}
use decyra_api.Pii.Anonymizer.{Anonymizer}
use decyra_api.Pii.Detect.{clean}
use decyra_api.Pii.Placeholder.{take_while}
use decyra_api.Store.{Msg}
use decyra_api.Turn.Analysis.Recorded.{Recorded, run_analysis-Recorded}
use decyra_api.Turn.Analysis.{run_analysis}
use decyra_api.Turn.Request.{DataSchema, Upload}
use decyra_api.Turn.Run.{Prepared}
use decyra_api.World.{Exec, pure}
use decyra_api.World.Keeps.{Yields, Yields-pure, Returns, Returns-pure}

-- A traceback that quotes a cell.
abbrev traceback : Text
traceback = codes "  File \"<generated>\", line 12, in f\npandas.errors.KeyError: 'Anna'\n"

abbrev failed_run : SandboxResult
failed_run = record { status = codes "error"; chart_png = none; output = traceback }

abbrev good_run : SandboxResult
good_run = record { status = codes "ok"; chart_png = some (137 ∷ 80 ∷ []); output = [] }

-- The first run fails, the second gives a chart.
abbrev two_results : List SandboxRun → SandboxRun → Option SandboxResult
two_results [] r = some failed_run
two_results (x ∷ xs) r = some good_run

abbrev pub some_box : Sandbox
some_box = record { run = two_results; sha256 = λ b. codes "hash"; is_word = is_ascii_letter }

abbrev some_schema : DataSchema
some_schema = record { columns = codes "x" ∷ []; dtypes = []; row_count = 3 }

abbrev plot : Text
plot = codes "plot()"

abbrev always_plots : Option Anonymizer → List Msg → Exec (Text × Option Anonymizer)
always_plots a ms = pure (plot, a)

feedback_run :
    build_retry_feedback is_ascii_letter failed_run
    ≡ codes "Fehler in Zeile 12 des generierten Codes. Ausnahmetyp: KeyError. " ++ generic_fix_hint
unfolding build_retry_feedback is_ascii_letter is_digit take_while starts_with join last_part
feedback_run = refl

build_retry_feedback-IsScrubbed_example :
    IsFixed (build_retry_feedback is_ascii_letter failed_run)
    ⊎ IsScrubbed (build_retry_feedback is_ascii_letter failed_run)
build_retry_feedback-IsScrubbed_example = build_retry_feedback-IsScrubbed is_ascii_letter failed_run

always_plots-plot :
    (a : Option Anonymizer) (ms : List Msg) → Yields (λ answer. answer.0 ≡ plot) (always_plots a ms)
always_plots-plot a ms = Yields-pure _ refl

always_plots-Returns : (a : Option Anonymizer) (ms : List Msg) → Returns (always_plots a ms)
always_plots-Returns a ms = Returns-pure _

generate_and_run-Completed_example :
    Yields
      (Completed (λ code. code ≡ plot) some_box.sha256 3)
      (generate_and_run some_box [] (codes "t.csv") 3 always_plots some_schema (codes "?") none)
generate_and_run-Completed_example =
    generate_and_run-Completed (λ code. code ≡ plot) some_box [] (codes "t.csv") 3 always_plots
      always_plots-plot some_schema (codes "?") none

generate_and_run-Returns_example :
    Returns
      (generate_and_run some_box [] (codes "t.csv") 3 always_plots some_schema (codes "?") none)
generate_and_run-Returns_example =
    generate_and_run-Returns some_box [] (codes "t.csv") 3 always_plots always_plots-Returns
      some_schema (codes "?") none

abbrev pub some_prepared : Prepared
some_prepared = record {
  ws = codes "ws";
  existing_cid = none;
  mode = codes "sovereign";
  schema = some some_schema;
  routed = record {
    effective_model = codes "eu";
    row = eu_model;
    prompt = record { role = codes "user"; content = codes "?" } ∷ [];
    anonymizer = none;
    anonymized = false;
    outcome = record { status = clean; is_detected = false };
    audit_request = codes "?";
  };
  question = codes "?";
  audit_request = codes "?";
  candidates = (codes "eu", eu_model) ∷ [];
}

abbrev some_upload : Upload
some_upload = record { bytes = 120 ∷ []; filename = some (codes "t.csv") }

abbrev pub some_b64 : Bytes → Text
some_b64 b = codes "aVA="

run_analysis-Recorded_example :
    Recorded some_env some_box some_b64 3 (codes "ada") some_prepared some_world.db (
      run_analysis some_env some_box some_b64 3
        (codes "ada")
        some_prepared
        some_schema
        some_upload
        some_world)
run_analysis-Recorded_example =
    run_analysis-Recorded some_env some_box some_b64 3 (codes "ada") some_prepared some_schema
      some_upload some_world
