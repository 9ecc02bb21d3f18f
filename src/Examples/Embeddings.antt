-- ===== src/Examples/Embeddings.antt =====
-- Embedding a document at a concrete shelf.
use decyra_api.Common.{◌≡◌, refl, true, Option, none, some, List, [], ◌∷◌}
use decyra_api.Common.Text.{Text, codes, is_space}
use decyra_api.Chunking.{target_tokens, overlap_tokens, chunk_text}
use decyra_api.Embeddings.{Shelf, embed_texts, embed_document}
use decyra_api.Embeddings.Rerun.{embed_document_again}
use decyra_api.World.{ok}

abbrev one_shelf : Shelf
one_shelf = record {
  documents =
      record { id = codes "d"; workspace_id = codes "ws"; embedding_status = codes "pending" } ∷ [];
  chunks =
      record {
        document_id = codes "e";
        workspace_id = codes "ws";
        content = codes "other";
        chunk_index = 0;
        embedding = codes "v";
      }
      ∷ [];
}

abbrev outage : List Text → Option (List Text)
outage _ = none

abbrev answering : List Text → Option (List Text)
answering texts = some texts

both_embedded :
    embed_texts
      (λ v. true)
      (λ v. v)
      answering
      (chunk_text target_tokens overlap_tokens (codes "a b"))
    ≡ ok (codes "a b" ∷ [])
unfolding embed_texts chunk_text is_space
both_embedded = refl

embed_document_again_example :
    embed_document
      (λ v. true)
      (λ v. v)
      answering
      (codes "ws")
      (codes "d")
      (codes "a b")
      (codes "ok")
      (embed_document
        (λ v. true)
        (λ v. v)
        outage
        (codes "ws")
        (codes "d")
        (codes "a b")
        (codes "ok")
        one_shelf).1
    ≡ embed_document
        (λ v. true)
        (λ v. v)
        answering
        (codes "ws")
        (codes "d")
        (codes "a b")
        (codes "ok")
        one_shelf
embed_document_again_example =
    embed_document_again (codes "ws") (codes "d") (λ v. true) (λ v. v) (codes "a b") (codes "ok")
      outage answering (codes "a b" ∷ []) one_shelf both_embedded
