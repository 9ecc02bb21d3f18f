-- ===== src/Embeddings.antt =====
-- app/embeddings.py: the vectors of a document's chunks. The error log is left out, and the statements of the
-- last transaction do not fail.
pub mod Rerun
use decyra_api.Common.{
  ℕ, zero, suc, ◌+◌, Bool, true, false, ◌&&◌, ◌||◌, not, Option, none, some, List, [], ◌∷◌, ◌++◌,
  map, ◌==◌, nat_eq, list_eq, if◌then◌else◌, keep_if, all, length, take, drop,
}
use decyra_api.Common.Text.{Text, codes}
use decyra_api.Chat.{strip}
use decyra_api.Chunking.{target_tokens, overlap_tokens, chunk_text}
use decyra_api.World.{Outcome, ok, raised, embedding_error}

-- The columns of `documents` and `document_chunks` that the module touches.
pub record DocumentRow : Type 0 where
  pub id : Text
  pub workspace_id : Text
  pub embedding_status : Text

pub record ChunkRow : Type 0 where
  pub document_id : Text
  pub workspace_id : Text
  pub content : Text
  pub chunk_index : ℕ
  pub embedding : Text

pub record Shelf : Type 0 where
  pub documents : List DocumentRow
  pub chunks : List ChunkRow

-- `MAX_BATCH`
abbrev pub max_batch : ℕ
max_batch = 64

abbrev pub restatus : Text → Text → Text → DocumentRow → DocumentRow
restatus ws id status d =
    if d.workspace_id == ws && d.id == id then record d { embedding_status = status } else d

-- `_set_status`, under row-level security with the document's workspace.
unfoldable pub set_status : Text → Text → Text → Shelf → Shelf
set_status ws id status s = record s { documents = map (restatus ws id status) s.documents }

-- `DELETE FROM document_chunks WHERE document_id = :d` spares the other rows.
abbrev pub spared : Text → Text → ChunkRow → Bool
spared ws id c = not (c.workspace_id == ws && c.document_id == id)

abbrev pub is_nothing : Text → Bool
is_nothing [] = true
is_nothing (c ∷ s) = false

-- A vector is of a type V, whose components are finite or not; `vec_literal` writes it. The provider embeds
-- the texts of a call, or fails.
module _ {V : Type 0} (is_finite : V → Bool) (vec_literal : V → Text) where
  -- `for idx, (content, vec) in enumerate(zip(chunks, vectors))`
  unfoldable pub chunk_rows : Text → Text → ℕ → List Text → List V → List ChunkRow
  chunk_rows ws id i [] vs = []
  chunk_rows ws id i (content ∷ cs) [] = []
  chunk_rows ws id i (content ∷ cs) (v ∷ vs) =
      record {
        document_id = id;
        workspace_id = ws;
        content = content;
        chunk_index = i;
        embedding = vec_literal v;
      }
      ∷ chunk_rows ws id (i + 1) cs vs

  unfoldable pub replace_chunks : Text → Text → List Text → List V → Shelf → Shelf
  unfolding chunk_rows set_status
  replace_chunks ws id chunks vectors s =
      set_status ws id (codes "done")
        (record s { chunks = keep_if (spared ws id) s.chunks ++ chunk_rows ws id 0 chunks vectors })

  abbrev pub and_then : List V → Outcome (List V) → Outcome (List V)
  and_then vs (ok rest) = ok (vs ++ rest)
  and_then vs (raised e) = raised e

  -- What is made of the answer to a batch, given what follows it.
  abbrev pub with_batch : Option (List V) → Outcome (List V) → Outcome (List V)
  with_batch none rest = raised embedding_error
  with_batch (some vs) rest = if all is_finite vs then and_then vs rest else raised embedding_error

  module _ (provider : List Text → Option (List V)) where
    unfoldable pub embed_batches : ℕ → List Text → Outcome (List V)
    embed_batches zero inputs = ok []
    embed_batches (suc n) [] = ok []
    embed_batches (suc n) (x ∷ inputs) =
        with_batch (provider (take max_batch (x ∷ inputs)))
          (embed_batches n (drop max_batch (x ∷ inputs)))

    -- Each call takes at least one text: their number is enough fuel.
    unfoldable pub embed_texts : List Text → Outcome (List V)
    unfolding embed_batches
    embed_texts inputs = embed_batches (length inputs) inputs

    abbrev pub embedded : Text → Text → List Text → Outcome (List V) → Shelf → Text × Shelf
    embedded ws id chunks (raised e) s = (codes "failed", set_status ws id (codes "failed") s)
    embedded ws id chunks (ok vectors) s = (codes "done", replace_chunks ws id chunks vectors s)

    unfoldable pub embed_document : Text → Text → Text → Text → Shelf → Text × Shelf
    unfolding embed_texts set_status replace_chunks
    embed_document ws id extracted_text extraction_status s =
        if extraction_status == codes "no_text" || is_nothing (strip extracted_text)
        then (codes "skipped", set_status ws id (codes "skipped") s)
        else let chunks = chunk_text target_tokens overlap_tokens extracted_text in
          embedded ws id chunks (embed_texts chunks) s
