-- ===== src/Store.antt =====
-- The tables of the database, and the helpers of app/chat.py, app/attachments.py, app/code_audit.py
-- and app/invitations.py that read and write them. A table is the list of its rows in insertion
-- order. A helper takes the value of the setting `app.current_workspace_id`, by which row-level
-- security filters the rows that a query of a workspace table can see.
use decyra_api.Common.{
  ℕ, Bool, ◌&&◌, Option, none, some, List, [], ◌∷◌, ◌++◌, map, ◌==◌, nat_eq, list_eq, option_eq,
  if◌then◌else◌, keep_if, find_if, lookup,
}
use decyra_api.Common.Text.{Text}

-- `models`. Prices are whole units per million tokens.
pub record Model : Type 0 where
  pub name : Text
  pub provider : Text
  pub cost_input : ℕ
  pub cost_output : ℕ
  pub sovereign_eligible : Bool
  pub enabled : Bool

pub record Membership : Type 0 where
  pub organization_id : Text
  pub workspace_id : Text
  pub role : Text

pub record Conversation : Type 0 where
  pub id : Text
  pub workspace_id : Text
  pub user_id : Text
  pub title : Text
  pub pii_mode : Option Text
  pub updated_at : ℕ

pub record Message : Type 0 where
  pub conversation_id : Text
  pub workspace_id : Text
  pub role : Text
  pub content : Text
  pub model : Option Text
  pub prompt_tokens : Option ℕ
  pub completion_tokens : Option ℕ
  pub cost : Option ℕ

pub record Attachment : Type 0 where
  pub id : Text
  pub workspace_id : Text
  pub conversation_id : Text
  pub filename : Text
  pub mime_type : Text
  pub size_bytes : ℕ
  pub extracted_text : Text

-- The columns that the program writes; the trigger adds the hashes (see Audit).
pub record AuditRow : Type 0 where
  pub workspace_id : Text
  pub user_id : Text
  pub model : Text
  pub request_text : Text
  pub response_text : Text
  pub routed_to : Text
  pub pii_detected : Bool
  pub pii_mode : Text
  pub anonymized : Bool

pub record CodeEvent : Type 0 where
  pub workspace_id : Text
  pub user_id : Text
  pub status : Text
  pub generated_code : Text
  pub chart_sha256 : Option Text

pub record Db : Type 0 where
  pub models : List Model
  pub members : List (Text × Membership)
  pub workspace_modes : List (Text × Option Text)
  pub conversations : List Conversation
  pub messages : List Message
  pub attachments : List Attachment
  pub audit_events : List AuditRow
  pub code_events : List CodeEvent
  -- `now()`, and the ids that `gen_random_uuid()` has still to return
  pub now : ℕ
  pub fresh_id : Text

-- `app.current_workspace_id`
abbrev pub Ctx : Type 0
Ctx = Option Text

-- `set_workspace_context`
abbrev pub set_workspace_context : Text → Ctx
set_workspace_context ws = some ws

abbrev pub visible : Ctx → Text → Bool
visible ctx ws = ctx == some ws

-- A message of a prompt.
pub record Msg : Type 0 where
  pub role : Text
  pub content : Text

-- `resolve_membership`
unfoldable pub resolve_membership : Db → Text → Option Membership
resolve_membership db user_id = lookup user_id db.members

-- `SELECT … FROM models WHERE name = :m AND enabled = true`
unfoldable pub enabled_model : Db → Text → Option Model
enabled_model db name = find_if (λ (r : Model). r.name == name && r.enabled) db.models

seen_conversation : Ctx → Text → Conversation → Bool
seen_conversation ctx cid c = visible ctx c.workspace_id && c.id == cid

-- `SELECT … FROM conversations WHERE id = :c`
unfoldable pub find_conversation : Ctx → Db → Text → Option Conversation
unfolding seen_conversation
find_conversation ctx db cid = find_if (seen_conversation ctx cid) db.conversations

unfoldable pub load_conversation_owner : Ctx → Db → Text → Option Text
unfolding find_conversation
load_conversation_owner ctx db cid = elim (find_conversation ctx db cid) [
  | none ↦ none
  | some c ↦ some c.user_id
]

unfoldable pub load_history : Ctx → Db → Text → List Msg
load_history ctx db cid =
    map (λ (m : Message). record { role = m.role; content = m.content })
      (keep_if (λ (m : Message). visible ctx m.workspace_id && m.conversation_id == cid)
        db.messages)

unfoldable pub load_attachments : Ctx → Db → Text → List Attachment
load_attachments ctx db cid =
    keep_if (λ (a : Attachment). visible ctx a.workspace_id && a.conversation_id == cid)
      db.attachments

-- The id of the new row is the next that `gen_random_uuid()` returns; what follows it is drawn anew
-- from the row's own id by `next_id`, a parameter.
module _ (next_id : Text → Text) where
  unfoldable pub create_conversation : Db → Text → Text → Text → Option Text → Text × Db
  create_conversation db ws user_id title pii_mode = (
    db.fresh_id,
    record db {
      conversations =
          db.conversations
          ++ record {
            id = db.fresh_id;
            workspace_id = ws;
            user_id = user_id;
            title = title;
            pii_mode = pii_mode;
            updated_at = db.now;
          }
            ∷ [];
      fresh_id = next_id db.fresh_id;
    },
  )

  unfoldable pub insert_attachment : Db → Text → Text → Text → Text → ℕ → Text → Text × Db
  insert_attachment db cid ws filename mime_type size_bytes extracted_text = (
    db.fresh_id,
    record db {
      attachments =
          db.attachments
          ++ record {
            id = db.fresh_id;
            workspace_id = ws;
            conversation_id = cid;
            filename = filename;
            mime_type = mime_type;
            size_bytes = size_bytes;
            extracted_text = extracted_text;
          }
            ∷ [];
      fresh_id = next_id db.fresh_id;
    },
  )

unfoldable pub insert_message : Db → Message → Db
insert_message db m = record db { messages = db.messages ++ m ∷ [] }

update_if :
    (Conversation → Bool) → (Conversation → Conversation) → List Conversation → List Conversation
update_if p f [] = []
update_if p f (c ∷ cs) = (if p c then f c else c) ∷ update_if p f cs

unfoldable pub touch_conversation : Ctx → Db → Text → Db
unfolding update_if seen_conversation
touch_conversation ctx db cid = record db {
  conversations =
      update_if (seen_conversation ctx cid) (λ c. record c { updated_at = db.now })
        db.conversations;
}

unfoldable pub set_conversation_mode : Ctx → Db → Text → Text → Db
unfolding update_if seen_conversation
set_conversation_mode ctx db cid pii_mode = record db {
  conversations =
      update_if (seen_conversation ctx cid) (λ c. record c { pii_mode = some pii_mode })
        db.conversations;
}

unfoldable pub insert_audit_event : Db → AuditRow → Db
insert_audit_event db row = record db { audit_events = db.audit_events ++ row ∷ [] }

unfoldable pub insert_code_execution_event : Db → CodeEvent → Db
insert_code_execution_event db row = record db { code_events = db.code_events ++ row ∷ [] }
