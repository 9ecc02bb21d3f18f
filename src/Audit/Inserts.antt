-- ===== src/Audit/Inserts.antt =====
-- The table of all workspaces under the trigger of inserts, and what the verifier makes of it.
use decyra_api.Common.{
  ℕ, ◌≡◌, refl, sym, ap, ◌∙◌, inl, inr, true, false, Option, none, List, [], ◌∷◌, ◌++◌, ◌==◌,
  nat_eq, list_eq, list_beq_iff, Bool-cases,
}
use decyra_api.Common.Text.{Text}
use decyra_api.Pii.Spans.{sorted}
use decyra_api.Audit.{AuditEventForHash, Row, workspace_rows, last_hash, chained, append_event}
use decyra_api.Audit.Chain.{
  IsMode, IsChain, final_hash, append-IsChain, trigger_canonical-mirror, verify_chain-valid_iff,
}
use decyra_api.Audit.Endpoints.{verify_workspace_chain}
use decyra_api.Audit.Order.{
  IsLatest, workspace_rows-in, last_hash-in, workspace_rows-out, last_hash-out,
}

final_hash-last :
    (previous : Option Text) (rows : List Row) (n : Row)
    → final_hash previous (rows ++ n ∷ []) ≡ n.current_hash
unfolding final_hash
final_hash-last previous [] n = refl
final_hash-last previous (r ∷ rows) n = final_hash-last r.current_hash rows n

module _ (format_ts : ℕ → Text) (sha256_hex : Text → Text) where
  -- The row that the trigger makes of an insert into the table.
  abbrev pub inserted_row : List Row → Text → AuditEventForHash → Row
  inserted_row rows id new = chained format_ts sha256_hex id (last_hash new.workspace_id rows) new

  -- What the table holds after inserts alone, each later than the rows of its workspace: under the lock of
  -- the workspace, `clock_timestamp()` grows from insert to insert.
  pub data Written : List Row → Type 0 where
    empty : Written []
    inserted :
        (rows : List Row) (id : Text) (new : AuditEventForHash)
        → IsMode new.pii_mode
        → IsLatest (inserted_row rows id new) rows
        → Written rows
        → Written (append_event format_ts sha256_hex rows id new)

  -- What holds of the rows of one workspace.
  record Linked (ws : Text) (rows : List Row) : Type 0 where
    chain : IsChain format_ts sha256_hex none (workspace_rows ws rows)
    last : last_hash ws rows ≡ final_hash none (workspace_rows ws rows)

  IsChain-along :
      {rs ss : List Row}
      → rs ≡ ss
      → IsChain format_ts sha256_hex none ss
      → IsChain format_ts sha256_hex none rs
  IsChain-along e h = rw e h

  module _ (ws : Text) (rows : List Row) (id : Text) (new : AuditEventForHash)
      (mode : IsMode new.pii_mode) (latest : IsLatest (inserted_row rows id new) rows)
      (linked : Linked ws rows) where
    -- An insert for the workspace itself, and one for another.
    Linked-in : new.workspace_id ≡ ws → Linked ws (append_event format_ts sha256_hex rows id new)
    unfolding append_event chained
    Linked-in same =
        let n = inserted_row rows id new in
        let grown = workspace_rows-in ws rows n same latest in
        record {
          chain = IsChain-along grown (
              append-IsChain format_ts sha256_hex none (workspace_rows ws rows) n linked.chain (
                ap (λ w. last_hash w rows) same ∙ linked.last,
                sym (
                    trigger_canonical-mirror format_ts sha256_hex id
                      (last_hash new.workspace_id rows) new mode),
                tt,
              ));
          last =
              last_hash-in ws rows n same latest
              ∙ sym (ap (final_hash none) grown ∙ final_hash-last none (workspace_rows ws rows) n);
        }

    Linked-out :
        (new.workspace_id == ws) ≡ false → Linked ws (append_event format_ts sha256_hex rows id new)
    unfolding append_event chained
    Linked-out other =
        let n = inserted_row rows id new in
        let kept = workspace_rows-out ws rows n other in
        record {
          chain = IsChain-along kept linked.chain;
          last = last_hash-out ws rows n other ∙ (linked.last ∙ sym (ap (final_hash none) kept));
        }

  Written-Linked : (ws : Text) (rows : List Row) → Written rows → Linked ws rows
  unfolding workspace_rows last_hash sorted final_hash
  Written-Linked ws _ empty = record { chain = tt; last = refl }
  Written-Linked ws _ (inserted rows id new mode latest w) =
      elim (Bool-cases (new.workspace_id == ws)) [
        | inl e ↦
            Linked-in ws rows id new mode latest (Written-Linked ws rows w)
              ((list_beq_iff new.workspace_id ws).0 e)
        | inr e ↦ Linked-out ws rows id new mode latest (Written-Linked ws rows w) e
      ]

  -- Whatever events were inserted, for whichever workspaces and in whichever turns, with modes that pass the
  -- column's CHECK and each later than the rows of its own workspace, the verifier accepts the rows of every
  -- workspace.
  pub verify_workspace_chain-Written :
      (rows : List Row)
      → Written rows
      → (ws : Text) → (verify_workspace_chain format_ts sha256_hex ws rows).valid ≡ true
  unfolding verify_workspace_chain
  verify_workspace_chain-Written rows w ws =
      (verify_chain-valid_iff format_ts sha256_hex (workspace_rows ws rows)).1
        (Written-Linked ws rows w).chain
