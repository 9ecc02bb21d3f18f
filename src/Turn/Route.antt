-- ===== src/Turn/Route.antt =====
-- The PII decision of a turn: the mode, the effective model, the prompt that may leave the house and
-- the text that the audit records.
use decyra_api.Common.{
  ◌+◌, Bool, true, false, not, ◌&&◌, Option, none, some, List, [], ◌∷◌, ◌++◌, map, ◌==◌, nat_eq,
  list_eq, contains, lookup, if◌then◌else◌, keep_if, find_if, take, drop, length, ◌-◌,
}
use decyra_api.Common.Text.{Text, codes, join}
use decyra_api.Store.{Db, Ctx, Model, Msg, Conversation, find_conversation}
use decyra_api.World.{Outcome, ok, raised, http}
use decyra_api.Chat.{user, audit_request_text}
use decyra_api.Pii.Anonymizer.{Anonymizer}
use decyra_api.Pii.Detect.{
  Checker, PiiOutcome, unavailable, needs_protection, contains_pii, anonymize_messages,
}
use decyra_api.Turn.Request.{Settings}

abbrev pub sovereign : Text
sovereign = codes "sovereign"

abbrev pub strict : Text
strict = codes "strict"

abbrev pub valid_pii_modes : List Text
valid_pii_modes = sovereign ∷ strict ∷ []

-- `pii_mode is None or pii_mode in _VALID_PII_MODES`, which is also the CHECK of the column.
abbrev pub mode_is_valid : Option Text → Bool
mode_is_valid none = true
mode_is_valid (some mode) = contains valid_pii_modes mode

valid_or_sovereign : Option Text → Text
valid_or_sovereign none = sovereign
valid_or_sovereign (some mode) = if contains valid_pii_modes mode then mode else sovereign

-- `_pii_mode`
unfoldable pub workspace_pii_mode : Db → Text → Text
unfolding valid_or_sovereign
workspace_pii_mode db ws = elim (lookup ws db.workspace_modes) [
  | none ↦ sovereign
  | some mode ↦ valid_or_sovereign mode
]

stored_mode : Option Conversation → Option Text
stored_mode none = none
stored_mode (some c) = c.pii_mode

is_valid : Option Text → Bool
is_valid none = false
is_valid (some mode) = contains valid_pii_modes mode

abbrev or_text : Option Text → Text → Text
or_text none d = d
or_text (some t) d = t

-- The row of the conversation, where there is one.
conversation_mode : Ctx → Db → Option Text → Option Text
unfolding stored_mode
conversation_mode ctx db none = none
conversation_mode ctx db (some cid) = stored_mode (find_conversation ctx db cid)

-- `_resolve_pii_mode`
unfoldable pub resolve_pii_mode : Ctx → Db → Text → Option Text → Option Text → Text
unfolding is_valid conversation_mode
resolve_pii_mode ctx db ws conversation_id request_mode =
    let stored = conversation_mode ctx db conversation_id in
    if is_valid request_mode
    then or_text request_mode sovereign
    else if is_valid stored
    then or_text stored sovereign
    else workspace_pii_mode db ws

-- `_resolve_effective_model`
unfoldable pub resolve_effective_model :
    Settings → Db → Text → Model → PiiOutcome → Outcome (Text × Model)
resolve_effective_model settings db chosen_model chosen_row outcome =
    if not (needs_protection outcome)
    then ok (chosen_model, chosen_row)
    else if chosen_row.sovereign_eligible
    then ok (chosen_model, chosen_row)
    else elim (find_if
        (λ (r : Model). r.name == settings.sovereign_model && r.enabled && r.sovereign_eligible)
        db.models) [
          | none ↦ raised (http 503)
          | some target ↦ ok (settings.sovereign_model, target)
        ]

-- The five sources of the prompt, and the raw texts of three of them.
pub record Sources : Type 0 where
  pub history : List Msg
  pub rag_context : List Msg
  pub file_context : List Msg
  pub schema_context : List Msg
  pub new_messages : List Msg
  pub rag_text : Text
  pub file_text : Text
  pub schema_text : Text

unfoldable pub llm_input : Sources → List Msg
llm_input s =
    s.history ++ (s.rag_context ++ (s.file_context ++ (s.schema_context ++ s.new_messages)))

abbrev pub is_nonempty : Text → Bool
is_nonempty [] = false
is_nonempty (c ∷ s) = true

abbrev pub content_of : Msg → Text
content_of m = m.content

unfoldable pub full_text : List Msg → Text
unfolding join
full_text ms = join (codes "\n") (map content_of (keep_if (λ (m : Msg). is_nonempty m.content) ms))

unfoldable pub user_text : List Msg → Text
unfolding join
user_text ms =
    join (codes "\n")
      (map content_of (keep_if (λ (m : Msg). m.role == user && is_nonempty m.content) ms))

abbrev on_new_line : Text → Text
on_new_line [] = []
on_new_line (c ∷ s) = codes "\n" ++ (c ∷ s)

unfoldable pub routing_text : Sources → Text
unfolding user_text
routing_text s =
    user_text (llm_input s)
    ++ (on_new_line s.rag_text ++ (on_new_line s.file_text ++ on_new_line s.schema_text))

pub record Routed : Type 0 where
  pub effective_model : Text
  pub row : Model
  pub prompt : List Msg
  pub anonymizer : Option Anonymizer
  pub anonymized : Bool
  pub outcome : PiiOutcome
  pub audit_request : Text

module _ (settings : Settings) (k : Checker) (db : Db) (model : Text) (row : Model) where
  -- The prompt goes out as it is, to the model that the outcome of `check` allows.
  unfoldable pub route_plain : Sources → PiiOutcome → PiiOutcome → Outcome Routed
  unfolding resolve_effective_model
  route_plain s check outcome = elim (resolve_effective_model settings db model row check) [
    | raised e ↦ raised e
    | ok (effective_model, eff_row) ↦ ok (record {
      effective_model = effective_model;
      row = eff_row;
      prompt = llm_input s;
      anonymizer = none;
      anonymized = false;
      outcome = outcome;
      audit_request = audit_request_text s.new_messages;
    })
  ]

  -- The branch `mode == "strict"` where PII was found.
  unfoldable pub route_masked : Sources → PiiOutcome → Outcome Routed
  unfolding route_plain
  route_masked s outcome = elim (anonymize_messages k (llm_input s)) [
    | none ↦ route_plain s (record { status = unavailable; is_detected = false }) outcome
    | some (prompt, anonymizer) ↦ ok (record {
      effective_model = model;
      row = row;
      prompt = prompt;
      anonymizer = some anonymizer;
      anonymized = true;
      outcome = outcome;
      audit_request =
          audit_request_text (drop (length (llm_input s) - length s.new_messages) prompt);
    })
  ]

  -- The two branches on the mode.
  unfoldable pub route : Text → Sources → Outcome Routed
  unfolding route_masked route_plain
  route mode s =
      let full = contains_pii k (full_text (llm_input s)) in
      let users = contains_pii k (routing_text s) in
      if mode == strict
      then (if full.is_detected then route_masked s full else route_plain s full full)
      else route_plain s users users

-- Invariant 5: the context that went out stands before the request in the audit.
unfoldable pub audit_with_context : Sources → Routed → Text
unfolding full_text
audit_with_context s r =
    let count = length s.rag_context + length s.file_context + length s.schema_context in
    let transited = take count (drop (length s.history) r.prompt) in
    let context =
      join (codes "\n\n")
        (map content_of (keep_if (λ (m : Msg). is_nonempty m.content) transited)) in
    if is_nonempty context then context ++ (codes "\n\n" ++ r.audit_request) else r.audit_request
