-- ===== src/Conversations.antt =====
-- The endpoints of app/main.py that list the conversations of a user and show one of them.
pub mod Privacy
use decyra_api.Common.{
  ℕ, Bool, ◌&&◌, Option, none, some, List, map, ◌==◌, nat_eq, list_eq, keep_if, find_if,
}
use decyra_api.Common.Tests.{leb}
use decyra_api.Common.Text.{Text}
use decyra_api.Pii.Spans.{sorted}
use decyra_api.Store.{
  Db, Ctx, set_workspace_context, visible, Membership, resolve_membership, Conversation, Message,
}
use decyra_api.World.{Outcome, ok, raised, http}

-- A message as `get_conversation` answers it.
pub record ShownMessage : Type 0 where
  pub role : Text
  pub content : Text
  pub model : Option Text

-- Row-level security, and `WHERE user_id = :u`.
abbrev pub own : Ctx → Text → Conversation → Bool
own ctx user_id c = visible ctx c.workspace_id && c.user_id == user_id

-- `ORDER BY updated_at DESC`
abbrev pub updated_later : Conversation → Conversation → Bool
updated_later c d = leb d.updated_at c.updated_at

unfoldable pub own_conversations : Db → Text → Membership → List Conversation
unfolding sorted
own_conversations db user_id member =
    sorted updated_later
      (keep_if (own (set_workspace_context member.workspace_id) user_id) db.conversations)

unfoldable pub list_conversations : Db → Text → Outcome (List Conversation)
unfolding own_conversations resolve_membership
list_conversations db user_id = elim (resolve_membership db user_id) [
  | none ↦ raised (http 403)
  | some member ↦ ok (own_conversations db user_id member)
]

unfoldable pub shown_messages : Ctx → Db → Text → List ShownMessage
shown_messages ctx db conversation_id =
    map (λ (m : Message). record { role = m.role; content = m.content; model = m.model })
      (keep_if (λ (m : Message). visible ctx m.workspace_id && m.conversation_id == conversation_id)
        db.messages)

abbrev pub own_with_id : Ctx → Text → Text → Conversation → Bool
own_with_id ctx user_id conversation_id c = own ctx user_id c && c.id == conversation_id

abbrev pub or_404 :
    Ctx → Db → Text → Option Conversation → Outcome (Conversation × List ShownMessage)
or_404 ctx db conversation_id none = raised (http 404)
or_404 ctx db conversation_id (some c) = ok (c, shown_messages ctx db conversation_id)

unfoldable pub shown_conversation :
    Db → Text → Text → Membership → Outcome (Conversation × List ShownMessage)
shown_conversation db conversation_id user_id member =
    let ctx = set_workspace_context member.workspace_id in
    or_404 ctx db conversation_id
      (find_if (own_with_id ctx user_id conversation_id) db.conversations)

unfoldable pub get_conversation : Db → Text → Text → Outcome (Conversation × List ShownMessage)
unfolding shown_conversation resolve_membership
get_conversation db conversation_id user_id = elim (resolve_membership db user_id) [
  | none ↦ raised (http 403)
  | some member ↦ shown_conversation db conversation_id user_id member
]
