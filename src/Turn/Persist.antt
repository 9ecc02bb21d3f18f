-- ===== src/Turn/Persist.antt =====
-- The write transaction that ends a chat turn, streamed or not.
use decyra_api.Common.{ℕ, Bool, Option, none, some, List, [], ◌∷◌}
use decyra_api.Common.Text.{Text}
use decyra_api.Store.{
  Db, Ctx, set_workspace_context, Model, Msg, Message, AuditRow, create_conversation,
  set_conversation_mode, insert_message, touch_conversation, insert_audit_event,
}
use decyra_api.Chat.{assistant, derive_title, compute_cost, persistable_messages}
use decyra_api.Pii.Placeholder.{deanonymize}
use decyra_api.Pii.Anonymizer.{Anonymizer}

-- What the model said, with its token counts.
pub record Completion : Type 0 where
  pub content : Text
  pub prompt_tokens : ℕ
  pub completion_tokens : ℕ

-- What a turn knows when the model has answered.
pub record TurnEnd : Type 0 where
  pub ws : Text
  pub user_id : Text
  pub existing_cid : Option Text
  pub new_messages : List Msg
  pub model : Text
  pub row : Model
  pub pii_detected : Bool
  pub pii_mode : Text
  pub anonymized : Bool
  pub anonymizer : Option Anonymizer
  pub audit_request : Text
  pub conv_pii_mode : Option Text

-- The text for the client and for storage.
unfoldable pub display : Option Anonymizer → Text → Text
display none content = content
display (some a) content = deanonymize a.ph_to_value content

plain_message : Text → Text → Msg → Message
plain_message ws cid m = record {
  conversation_id = cid;
  workspace_id = ws;
  role = m.role;
  content = m.content;
  model = none;
  prompt_tokens = none;
  completion_tokens = none;
  cost = none;
}

unfoldable pub insert_messages : Text → Text → List Msg → Db → Db
unfolding insert_message plain_message
insert_messages ws cid [] db = db
insert_messages ws cid (m ∷ ms) db =
    insert_messages ws cid ms (insert_message db (plain_message ws cid m))

unfoldable pub update_mode : Ctx → Text → Option Text → Db → Db
update_mode ctx cid none db = db
update_mode ctx cid (some mode) db = set_conversation_mode ctx db cid mode

module _ (next_id : Text → Text) where
  -- The conversation of the turn: the one that there is, with the mode of the request, or a new one.
  unfoldable pub turn_conversation : TurnEnd → Db → Text × Db
  unfolding update_mode
  turn_conversation t db = elim t.existing_cid [
    | some cid ↦ (cid, update_mode (set_workspace_context t.ws) cid t.conv_pii_mode db)
    | none ↦
        create_conversation next_id db t.ws t.user_id (derive_title t.new_messages) t.conv_pii_mode
  ]

  unfoldable pub answer_message : TurnEnd → Text → Completion → Message
  answer_message t cid c = record {
    conversation_id = cid;
    workspace_id = t.ws;
    role = assistant;
    content = display t.anonymizer c.content;
    model = some t.model;
    prompt_tokens = some c.prompt_tokens;
    completion_tokens = some c.completion_tokens;
    cost =
        some (compute_cost c.prompt_tokens c.completion_tokens t.row.cost_input t.row.cost_output);
  }

  unfoldable pub audit_row : TurnEnd → Completion → AuditRow
  audit_row t c = record {
    workspace_id = t.ws;
    user_id = t.user_id;
    model = t.model;
    request_text = t.audit_request;
    response_text = c.content;
    routed_to = t.row.provider;
    pii_detected = t.pii_detected;
    pii_mode = t.pii_mode;
    anonymized = t.anonymized;
  }

  unfoldable pub persist_turn : TurnEnd → Completion → Db → Text × Db
  unfolding turn_conversation insert_messages answer_message audit_row
  persist_turn t c db =
      let (cid, opened) = turn_conversation t db in
      let asked = insert_messages t.ws cid (persistable_messages t.new_messages) opened in
      let answered = insert_message asked (answer_message t cid c) in
      let touched = touch_conversation (set_workspace_context t.ws) answered cid in
      (cid, insert_audit_event touched (audit_row t c))
