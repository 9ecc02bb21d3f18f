-- ===== src/Embeddings/Rerun.antt =====
-- What embedding a document again leaves behind, and what the batches of a call amount to.
use decyra_api.Common.{
  ℕ, ◌+◌, ◌≡◌, refl, sym, ap, ◌∙◌, inl, inr, Bool, true, false, ◌&&◌, ◌||◌, Option, List, [], ◌∷◌,
  ◌++◌, map, ◌==◌, nat_eq, list_eq, list_beq_iff, arith, keep_if, Bool-cases,
}
use decyra_api.Common.Text.{Text, codes}
use decyra_api.Chat.{strip}
use decyra_api.Chunking.{target_tokens, overlap_tokens, chunk_text}
use decyra_api.World.{Outcome, ok, raised}
use decyra_api.Embeddings.{
  DocumentRow, ChunkRow, Shelf, restatus, set_status, spared, is_nothing, chunk_rows,
  replace_chunks, embed_texts, embedded, embed_document,
}

abbrev shelf_of : List DocumentRow → List ChunkRow → Shelf
shelf_of ds cs = record { documents = ds; chunks = cs }

module _ (ws id : Text) where
  restatus-restatus :
      (a b : Text) (d : DocumentRow) → restatus ws id a (restatus ws id b d) ≡ restatus ws id a d
  restatus-restatus a b d = elim (Bool-cases (d.workspace_id == ws && d.id == id)) [
    | inl e ↦ rw (e, e) refl
    | inr e ↦ rw (e, e) refl
  ]

  restatus_all :
      (a b : Text) (ds : List DocumentRow)
      → map (restatus ws id a) (map (restatus ws id b) ds) ≡ map (restatus ws id a) ds
  restatus_all a b [] = refl
  restatus_all a b (d ∷ ds) =
      let first = restatus-restatus a b d in let rest = restatus_all a b ds in cc

  set_status-set_status :
      (a b : Text) (s : Shelf) → set_status ws id a (set_status ws id b s) ≡ set_status ws id a s
  unfolding set_status
  set_status-set_status a b s = ap (λ ds. shelf_of ds s.chunks) (restatus_all a b s.documents)

  own_row : ((ws == ws) && (id == id)) ≡ true
  own_row = ground (arith, list_beq_iff ws ws, list_beq_iff id id)

  module _ {V : Type 0} (is_finite : V → Bool) (vec_literal : V → Text) where
    spared-chunk_rows :
        (i : ℕ) (chunks : List Text) (vs : List V)
        → keep_if (spared ws id) (chunk_rows is_finite vec_literal ws id i chunks vs) ≡ []
    unfolding chunk_rows
    spared-chunk_rows i [] vs = refl
    spared-chunk_rows i (c ∷ cs) [] = refl
    spared-chunk_rows i (c ∷ cs) (v ∷ vs) = rw (own_row) (spared-chunk_rows (i + 1) cs vs)

    spared-spared :
        (cs rows : List ChunkRow)
        → keep_if (spared ws id) rows ≡ []
        → keep_if (spared ws id) (keep_if (spared ws id) cs ++ rows) ≡ keep_if (spared ws id) cs
    spared-spared [] rows h = h
    spared-spared (c ∷ cs) rows h = elim (Bool-cases (spared ws id c)) [
      | inl e ↦ rw (e, e) (ap (λ t. c ∷ t) (spared-spared cs rows h))
      | inr e ↦ rw e (spared-spared cs rows h)
    ]

    shelf :
        (ds es : List DocumentRow) (cs rs : List ChunkRow)
        → ds ≡ es
        → cs ≡ rs
        → shelf_of ds cs ≡ shelf_of es rs
    shelf ds es cs rs p q = rw (p, q) refl

    replace_chunks_failed :
        (chunks : List Text) (vs : List V) (status : Text) (s : Shelf)
        → replace_chunks is_finite vec_literal ws id chunks vs (set_status ws id status s)
          ≡ replace_chunks is_finite vec_literal ws id chunks vs s
    unfolding replace_chunks set_status
    replace_chunks_failed chunks vs status s =
        shelf _ _ _ _ (restatus_all (codes "done") status s.documents) refl

    replace_chunks-replace_chunks :
        (chunks : List Text) (vs us : List V) (s : Shelf)
        → replace_chunks is_finite vec_literal ws id chunks vs
            (replace_chunks is_finite vec_literal ws id chunks us s)
          ≡ replace_chunks is_finite vec_literal ws id chunks vs s
    unfolding replace_chunks set_status
    replace_chunks-replace_chunks chunks vs us s =
        shelf _ _ _ _ (restatus_all (codes "done") (codes "done") s.documents) (
          ap (λ t. t ++ chunk_rows is_finite vec_literal ws id 0 chunks vs)
            (spared-spared s.chunks (chunk_rows is_finite vec_literal ws id 0 chunks us)
              (spared-chunk_rows 0 chunks us)))

    replace_chunks-embedded :
        (p : List Text → Option (List V)) (chunks : List Text) (vs : List V) (o : Outcome (List V))
        (s : Shelf)
        → replace_chunks is_finite vec_literal ws id chunks vs
            (embedded is_finite vec_literal p ws id chunks o s).1
          ≡ replace_chunks is_finite vec_literal ws id chunks vs s
    replace_chunks-embedded p chunks vs (raised e) s =
        replace_chunks_failed chunks vs (codes "failed") s
    replace_chunks-embedded p chunks vs (ok us) s = replace_chunks-replace_chunks chunks vs us s

    module _ (extracted_text extraction_status : Text) where
      has_nothing : Bool
      has_nothing = extraction_status == codes "no_text" || is_nothing (strip extracted_text)

      pieces : List Text
      pieces = chunk_text target_tokens overlap_tokens extracted_text

      embed_document_skipped :
          (p : List Text → Option (List V)) (s : Shelf)
          → has_nothing ≡ true
          → embed_document is_finite vec_literal p ws id extracted_text extraction_status s
            ≡ (codes "skipped", set_status ws id (codes "skipped") s)
      unfolding has_nothing embed_document set_status
      embed_document_skipped p s e = rw (embed_document, e) refl

      embed_document-embedded :
          (p : List Text → Option (List V)) (s : Shelf) (o : Outcome (List V))
          → has_nothing ≡ false
          → embed_texts is_finite vec_literal p pieces ≡ o
          → embed_document is_finite vec_literal p ws id extracted_text extraction_status s
            ≡ embedded is_finite vec_literal p ws id pieces o s
      unfolding has_nothing pieces embed_document
      embed_document-embedded p s o e h = rw (embed_document, e, h) refl

      set_status-embed_document :
          (p : List Text → Option (List V)) (s : Shelf)
          → has_nothing ≡ true
          → set_status ws id
              (codes "skipped")
              (embed_document is_finite vec_literal p ws id extracted_text extraction_status s).1
            ≡ set_status ws id (codes "skipped") s
      set_status-embed_document p s e =
          ap (λ (r : Text × Shelf). set_status ws id (codes "skipped") r.1)
            (embed_document_skipped p s e)
          ∙ set_status-set_status (codes "skipped") (codes "skipped") s

      replace_chunks-embed_document :
          (p : List Text → Option (List V)) (vs : List V) (s : Shelf)
          → has_nothing ≡ false
          → replace_chunks is_finite vec_literal ws id pieces vs
              (embed_document is_finite vec_literal p ws id extracted_text extraction_status s).1
            ≡ replace_chunks is_finite vec_literal ws id pieces vs s
      replace_chunks-embed_document p vs s e =
          ap (λ (r : Text × Shelf). replace_chunks is_finite vec_literal ws id pieces vs r.1)
            (embed_document-embedded p s _ e refl)
          ∙ replace_chunks-embedded p pieces vs (embed_texts is_finite vec_literal p pieces) s

      -- Where the provider answers for all chunks, an embedding after an earlier one, whatever the provider
      -- did then, leaves the same rows and status as the embedding alone: no chunk of the earlier one stays,
      -- and none stands there twice.
      pub embed_document_again :
          (p q : List Text → Option (List V)) (vs : List V) (s : Shelf)
          → embed_texts is_finite vec_literal q
              (chunk_text target_tokens overlap_tokens extracted_text)
            ≡ ok vs
          → embed_document is_finite vec_literal q ws id extracted_text extraction_status
              (embed_document is_finite vec_literal p ws id extracted_text extraction_status s).1
            ≡ embed_document is_finite vec_literal q ws id extracted_text extraction_status s
      unfolding pieces
      embed_document_again p q vs s h = elim (Bool-cases has_nothing) [
        | inl e ↦
            embed_document_skipped q _ e
            ∙ (ap (λ (t : Shelf). (codes "skipped", t)) (set_status-embed_document p s e)
                ∙ sym (embed_document_skipped q s e))
        | inr e ↦
            embed_document-embedded q _ (ok vs) e h
            ∙ (ap (λ (t : Shelf). (codes "done", t)) (replace_chunks-embed_document p vs s e)
                ∙ sym (embed_document-embedded q s (ok vs) e h))
      ]
