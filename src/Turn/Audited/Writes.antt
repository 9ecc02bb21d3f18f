-- ===== src/Turn/Audited/Writes.antt =====
-- The audit events that a turn's transaction leaves.
use decyra_api.Common.{
  inl, inr, Option-cases, ◌≡◌, refl, ap, ◌∙◌, Option, none, some, List, [], ◌∷◌, ◌++◌,
}
use decyra_api.Common.Text.{Text}
use decyra_api.Store.{
  set_workspace_context, Db, Msg, AuditRow, create_conversation, insert_message, touch_conversation,
  set_conversation_mode, insert_audit_event,
}
use decyra_api.Chat.{persistable_messages}
use decyra_api.Turn.Persist.{
  TurnEnd, Completion, turn_conversation, insert_messages, persist_turn, audit_row, update_mode,
}

insert_messages-audit_events :
    (ws cid : Text) (ms : List Msg) (db : Db)
    → (insert_messages ws cid ms db).audit_events ≡ db.audit_events
unfolding insert_messages insert_message
insert_messages-audit_events ws cid [] db = refl
insert_messages-audit_events ws cid (m ∷ ms) db = insert_messages-audit_events ws cid ms _

update_mode-audit_events :
    (ws : Text) (cid : Text) (m : Option Text) (db : Db)
    → (update_mode (set_workspace_context ws) cid m db).audit_events ≡ db.audit_events
unfolding update_mode set_conversation_mode
update_mode-audit_events ws cid none db = refl
update_mode-audit_events ws cid (some m) db = refl

turn_conversation-audit_events :
    (next_id : Text → Text) (t : TurnEnd) (db : Db)
    → (turn_conversation next_id t db).1.audit_events ≡ db.audit_events
unfolding turn_conversation create_conversation
turn_conversation-audit_events next_id t db = elim (Option-cases t.existing_cid) [
  | inl e ↦ rw e refl
  | inr (cid, e) ↦ rw e (update_mode-audit_events t.ws cid t.conv_pii_mode db)
]

pub persist_turn-audit_events :
    (next_id : Text → Text) (t : TurnEnd) (c : Completion) (db : Db)
    → (persist_turn next_id t c db).1.audit_events ≡ db.audit_events ++ audit_row next_id t c ∷ []
unfolding persist_turn insert_audit_event touch_conversation insert_message
persist_turn-audit_events next_id t c db =
    ap (λ (es : List AuditRow). es ++ audit_row next_id t c ∷ [])
      (insert_messages-audit_events t.ws (turn_conversation next_id t db).0
          (persistable_messages t.new_messages) (turn_conversation next_id t db).1
        ∙ turn_conversation-audit_events next_id t db)
