-- ===== src/Analysis.antt =====
-- app/analysis.py: the prompt for the code, and the feedback after a failed run.
pub mod Dialogue
pub mod Loop
pub mod Outcome
pub mod Safe
use decyra_api.Common.{
  ℕ, zero, suc, ◌+◌, Bool, true, false, not, ◌&&◌, ◌||◌, Option, none, some, List, [], ◌∷◌, ◌++◌,
  ◌==◌, nat_eq, list_eq, if◌then◌else◌, take, drop, length,
}
use decyra_api.Common.Text.{Text, codes, within, is_digit, is_ascii_letter, starts_with, join}
use decyra_api.Chat.{system, user}
use decyra_api.Documents.{Bytes}
use decyra_api.Pii.Placeholder.{take_while}
use decyra_api.Store.{Msg}
use decyra_api.Turn.Context.{schema_for_prompt}
use decyra_api.Turn.Request.{DataSchema}

-- `SandboxResult` of app/sandbox/runner.py
pub record SandboxResult : Type 0 where
  pub status : Text
  pub chart_png : Option Bytes
  pub output : Text

-- `_CODEGEN_SYSTEM`
abbrev pub codegen_system : Text
codegen_system =
    codes
      "Du bist ein Python-Datenanalyse-Codegenerator. Schreibe AUSSCHLIESSLICH Python-Code (pandas + matplotlib), KEINE Erklaerungen, KEINE Markdown-Codefences.\n"
    ++ codes "Harte Regeln:\n"
    ++ codes
        "- Lies die Daten NUR aus der globalen Variable INPUT_PATH (z. B. pandas.read_csv(INPUT_PATH) oder pandas.read_excel(INPUT_PATH)).\n"
    ++ codes
        "- Speichere GENAU EIN Diagramm in die Datei unter der globalen Variable CHART_PATH (z. B. plt.savefig(CHART_PATH)).\n"
    ++ codes "- Verwende KEINEN Netzwerkzugriff (no network).\n"
    ++ codes "- Importiere NICHTS ausser pandas und matplotlib.\n"
    ++ codes
        "- Verwende NUR die unten angegebenen Spalten (Schema). Es liegen dir KEINE Zellwerte vor.\n"
    ++ codes "- Gib ausschliesslich lauffaehigen Python-Code zurueck."

unfoldable pub build_codegen_messages : DataSchema → Text → List Msg
build_codegen_messages schema question =
    record { role = system; content = codegen_system }
    ∷ record { role = system; content = schema_for_prompt schema }
    ∷ record { role = user; content = question }
    ∷ []

-- `pattern.search(text)` for a pattern that matches no empty text and sees the character before it.
unfoldable pub search_from : (Option ℕ → Text → Option Text) → Option ℕ → Text → Option Text
search_from match prev [] = none
search_from match prev (c ∷ s) =
    let later = search_from match (some c) s in
    elim (match prev (c ∷ s)) [ none ↦ later | some found ↦ some found ]

abbrev or_none : Text → Option Text
or_none [] = none
or_none (c ∷ s) = some (c ∷ s)

-- The literal before the digits of `_GEN_LINE_RE`.
abbrev pub gen_line_start : Text
gen_line_start = codes "File \"<generated>\", line "

-- `_GEN_LINE_RE`, with its group.
unfoldable pub gen_line : Option ℕ → Text → Option Text
gen_line prev s =
    if starts_with gen_line_start s
    then or_none (take_while is_digit (drop (length gen_line_start) s))
    else none

-- `^` under `re.MULTILINE`
abbrev pub at_line_start : Option ℕ → Bool
at_line_start none = true
at_line_start (some c) = c == b'\n'

-- `[A-Za-z_]` and `[A-Za-z0-9_.]`
abbrev pub begins_name : ℕ → Bool
begins_name c = is_ascii_letter c || c == b'_'

abbrev pub continues_name : ℕ → Bool
continues_name c = is_ascii_letter c || within b'0' b'9' c || c == b'_' || c == b'.'

abbrev first_of : Option Text → Option Text → Option Text
first_of (some s) b = some s
first_of none b = b

-- `name.split(".")[-1]`; the first argument is the part read so far.
unfoldable pub last_part : Text → Text → Text
last_part part [] = part
last_part part (c ∷ s) = last_part (if c == b'.' then [] else part ++ c ∷ []) s

-- `_GENERIC_FIX_HINT`
abbrev pub generic_fix_hint : Text
generic_fix_hint =
    codes
      "Die vorige Code-Ausfuehrung schlug fehl. Korrigiere den Code anhand des oben gezeigten Schemas (Spaltennamen/Datentypen) und der Lauf-Regeln. Gib nur den korrigierten Python-Code zurueck."

-- The three feedbacks that are fixed.
abbrev pub timeout_feedback : Text
timeout_feedback =
    codes "Die Ausfuehrung hat das Zeitlimit ueberschritten (execution timed out). "
    ++ generic_fix_hint

abbrev pub killed_feedback : Text
killed_feedback =
    codes "Die Ausfuehrung hat das Speicherlimit ueberschritten (exceeded memory). "
    ++ generic_fix_hint

abbrev pub no_chart_feedback : Text
no_chart_feedback =
    codes
      "Der Code hat kein Diagramm erzeugt (no chart produced) — speichere genau ein Chart nach CHART_PATH. "
    ++ generic_fix_hint

abbrev pub line_part : Option Text → List Text
line_part none = []
line_part (some line) = (codes "Fehler in Zeile " ++ line ++ codes " des generierten Codes") ∷ []

abbrev pub class_part : Option Text → List Text
class_part none = []
class_part (some name) = (codes "Ausnahmetyp: " ++ name) ∷ []

abbrev pub bare_name : Option Text → Option Text
bare_name none = none
bare_name (some name) = some (last_part [] name)

abbrev pub render_parts : List Text → Text
render_parts [] = codes "Die Code-Ausfuehrung schlug mit einem Fehler fehl. " ++ generic_fix_hint
render_parts (p ∷ ps) = join (codes ". ") (p ∷ ps) ++ codes ". " ++ generic_fix_hint

module _ (is_word : ℕ → Bool) where
  abbrev word_goes_on : Text → Bool
  word_goes_on [] = false
  word_goes_on (c ∷ s) = is_word c

  -- The suffix stands behind `k` characters, and a word ends with it.
  ends_at : Text → Text → ℕ → Bool
  ends_at suffix s k =
      starts_with suffix (drop k s) && not (word_goes_on (drop (k + length suffix) s))

  -- The greedy repetition gives back one character after the other.
  last_end : Text → Text → ℕ → Option ℕ
  unfolding ends_at
  last_end suffix s zero = if ends_at suffix s zero then some (length suffix) else none
  last_end suffix s (suc k) =
      let shorter = last_end suffix s k in
      if ends_at suffix s (suc k) then some (suc k + length suffix) else shorter

  -- One alternative of `_EXC_CLASS_RE`: a name that ends with the suffix.
  name_with : Text → Text → Option Text
  unfolding last_end
  name_with suffix [] = none
  name_with suffix (c ∷ s) =
      if begins_name c
      then elim (last_end suffix s (length (take_while continues_name s))) [
        | none ↦ none
        | some end ↦ some (c ∷ take end s)
      ]
      else none

  -- `_EXC_CLASS_RE`, with its group.
  unfoldable pub exc_class : Option ℕ → Text → Option Text
  unfolding name_with
  exc_class prev s =
      if at_line_start prev
      then first_of (name_with (codes "Error") s) (name_with (codes "Exception") s)
      else none

  unfoldable pub build_retry_feedback : SandboxResult → Text
  unfolding search_from gen_line exc_class
  build_retry_feedback result =
      if result.status == codes "timeout"
      then timeout_feedback
      else if result.status == codes "killed"
      then killed_feedback
      else if result.status == codes "no_chart"
      then no_chart_feedback
      else render_parts (
          line_part (search_from gen_line none result.output)
          ++ class_part (bare_name (search_from exc_class none result.output)))
