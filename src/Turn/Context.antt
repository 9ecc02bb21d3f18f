-- ===== src/Turn/Context.antt =====
-- The stages of a turn that gather the context: the conversation, RAG, the analysis intake and the
-- attachments.
use decyra_api.Common.{
  ℕ, Bool, true, false, not, Option, none, some, List, [], ◌∷◌, ◌++◌, map, ◌==◌, nat_eq, list_eq,
  contains, lookup, if◌then◌else◌, length,
}
use decyra_api.Common.Text.{Text, codes, join, decimal}
use decyra_api.Store.{
  Db, set_workspace_context, Msg, Attachment, load_conversation_owner, load_history,
  load_attachments, create_conversation, insert_attachment,
}
use decyra_api.World.{
  Outcome, ok, raised, Exc, http, unhandled, Exec, ◌>>=◌, ◌>>◌, pure, raise, transact, require,
}
use decyra_api.Chat.{system, derive_title}
use decyra_api.Retrieval.{
  RetrievedChunk, latest_user_query, retrieve_chunks, chunk_join, build_context_message,
}
use decyra_api.Documents.{
  Read, read, refused, DocError, unsupported_type, unicode_error, extraction_error, sniff_mime,
  extract_text, exceeds_cap, sanitize_filename, xlsx_mime, txt_mime,
}
use decyra_api.Turn.Route.{mode_is_valid}
use decyra_api.Turn.Request.{ChatCompletionRequest, Upload, DataSchema, Env}

abbrev pub is_given : Option Text → Bool
is_given none = false
is_given (some []) = false
is_given (some (c ∷ s)) = true

-- What an exception of app/documents.py becomes: 415 for the unsupported type, and no handler for the
-- decoder's own error.
abbrev pub of_doc_error : DocError → Exc
of_doc_error unsupported_type = http 415
of_doc_error unicode_error = unhandled
of_doc_error extraction_error = http 422

abbrev pub of_read : {A : Type 0} → Read A → Outcome A
of_read (read a) = ok a
of_read (refused e) = raised (of_doc_error e)

-- The conversation id and its history.
abbrev pub OpenedHistory : Type 0
OpenedHistory = Option Text × List Msg

abbrev owned_by : Text → Option Text → Bool
owned_by user_id none = false
owned_by user_id (some owner) = owner == user_id

unfoldable pub open_conversation : Env → Db → Text → Text → Option Text → Outcome OpenedHistory
open_conversation env db ws user_id none = ok (none, [])
open_conversation env db ws user_id (some []) = ok (none, [])
open_conversation env db ws user_id (some (c ∷ s)) =
    let ctx = set_workspace_context ws in
    if not (env.uuid_parses (c ∷ s))
    then raised (http 404)
    else if not (owned_by user_id (load_conversation_owner ctx db (c ∷ s)))
    then raised (http 404)
    else ok (some (c ∷ s), load_history ctx db (c ∷ s))

-- The chunks that retrieval gives; an outage of the embedding provider gives none.
chunks_or_none : Outcome (List RetrievedChunk) → List RetrievedChunk
chunks_or_none (ok chunks) = chunks
chunks_or_none (raised e) = []

abbrev chunk_context : List RetrievedChunk → List Msg × Text
chunk_context [] = ([], [])
chunk_context (c ∷ cs) = (build_context_message (c ∷ cs) ∷ [], chunk_join (c ∷ cs))

query_context : Env → Text → Text → List Msg × Text
unfolding chunks_or_none
query_context env ws [] = ([], [])
query_context env ws (c ∷ query) =
    chunk_context
      (chunks_or_none (retrieve_chunks env.search (set_workspace_context ws) ws (c ∷ query)))

unfoldable pub rag_context : Env → ChatCompletionRequest → Text → List Msg × Text
unfolding query_context
rag_context env payload ws =
    if payload.use_company_knowledge
    then query_context env ws (latest_user_query payload.messages)
    else ([], [])

-- `_SCHEMA_CONTEXT_HEADER`
abbrev pub schema_context_header : Text
schema_context_header =
    codes
      "Schema der zur Analyse hochgeladenen Datei (nur Spaltennamen, Datentypen und Zeilenzahl — keine Zellwerte)."

-- `_FILE_CONTEXT_HEADER`
abbrev pub file_context_header : Text
file_context_header =
    codes
      "Kontext aus vom Nutzer in diesem Chat angehängten Dateien. Beziehe dich bei der Antwort auf diese Dateien, wenn sie relevant sind."

dtype_of : DataSchema → Text → Text
dtype_of schema column = elim (lookup column schema.dtypes) [ none ↦ codes "unknown" | some t ↦ t ]

-- `schema_for_prompt` of app/analysis.py
unfoldable pub schema_for_prompt : DataSchema → Text
unfolding dtype_of join decimal
schema_for_prompt schema = join (codes "\n") (
    (codes "Datei-Schema (nur Struktur, keine Werte): "
      ++ decimal schema.row_count
      ++ codes " Zeilen.")
    ∷ codes "Spalten:"
    ∷ map (λ col. codes "- " ++ col ++ codes " (" ++ dtype_of schema col ++ codes ")")
        schema.columns)

-- The upload of a turn that asks for the code interpreter.
unfoldable pub analysis_upload : ChatCompletionRequest → Option Upload → Option Upload
analysis_upload payload none = none
analysis_upload payload (some u) = if payload.use_code_interpreter then some u else none

-- `_ANALYSIS_ALLOWED`
abbrev pub analysis_allowed : List Text
analysis_allowed = xlsx_mime ∷ txt_mime ∷ []

schema_of : Option DataSchema → Outcome (Option DataSchema)
schema_of none = raised (http 422)
schema_of (some schema) = ok (some schema)

-- The analysis intake: nothing is stored.
unfoldable pub analysis_intake : Env → Option Upload → Outcome (Option DataSchema)
unfolding schema_of
analysis_intake env none = ok none
analysis_intake env (some u) = elim (of_read (sniff_mime env.parsers u.bytes)) [
  | raised e ↦ raised e
  | ok mime ↦
      if contains analysis_allowed mime
      then schema_of (env.extract_schema u.bytes)
      else raised (http 415)
]

abbrev pub schema_context : Option DataSchema → List Msg × Text
schema_context none = ([], [])
schema_context (some schema) = (
  record {
    role = system;
    content = schema_context_header ++ (codes "\n\n" ++ schema_for_prompt schema);
  }
      ∷ [],
  schema_for_prompt schema,
)

-- A new attachment, validated and extracted before anything is written.
pub record Extracted : Type 0 where
  pub filename : Text
  pub mime : Text
  pub size : ℕ
  pub text : Text

unfoldable pub extract_attachment : Env → Upload → Outcome Extracted
extract_attachment env u = elim (of_read (sniff_mime env.parsers u.bytes)) [
  | raised e ↦ raised e
  | ok mime ↦ elim (of_read (extract_text env.parsers mime u.bytes)) [
    | raised e ↦ raised e
    | ok (text, status) ↦
        if exceeds_cap text env.settings.max_extracted_chars
        then raised (http 413)
        else ok (record {
          filename = sanitize_filename u.filename;
          mime = mime;
          size = length u.bytes;
          text = text;
        })
  ]
]

-- The early conversation: the id to bind to, and the database with it.
unfoldable pub conversation_for :
    Env → ChatCompletionRequest → Text → Text → Option Text → Db → Text × Db
conversation_for env payload ws user_id (some cid) db = (cid, db)
conversation_for env payload ws user_id none db =
    create_conversation env.next_id db ws user_id (derive_title payload.messages) payload.pii_mode

unfoldable pub store_attachment :
    Env → ChatCompletionRequest → Text → Text → Option Text → Extracted → Db → Option Text × Db
unfolding conversation_for
store_attachment env payload ws user_id existing x db =
    let (cid, db') = conversation_for env payload ws user_id existing db in
    let (_, db'') = insert_attachment env.next_id db' cid ws x.filename x.mime x.size x.text in
    (some cid, db'')

abbrev pub lift : {A : Type 0} → Outcome A → Exec A
lift (ok a) = pure a
lift (raised e) = raise e

-- The CHECK on `conversations.pii_mode`, which the early creation may violate.
abbrev pub check_holds : ChatCompletionRequest → Option Text → Bool
check_holds payload none = mode_is_valid payload.pii_mode
check_holds payload (some cid) = true

-- The persistence path of an upload: it is skipped for an analysis.
unfoldable pub attach :
    Env → ChatCompletionRequest → Text → Text → Option Text → Option Upload → Exec (Option Text)
attach env payload ws user_id existing none = pure existing
attach env payload ws user_id existing (some u) =
    if payload.use_code_interpreter then pure existing else do
      x ← lift (extract_attachment env u)
      require (check_holds payload existing) unhandled
      transact (store_attachment env payload ws user_id existing x)

abbrev attachment_context : List Attachment → List Msg × Text
attachment_context [] = ([], [])
attachment_context (a ∷ atts) = (
  record {
    role = system;
    content =
        file_context_header
        ++ (codes "\n\n"
            ++ join (codes "\n\n") (
                map
                  (λ (x : Attachment).
                    codes "[Datei: " ++ x.filename ++ codes "]\n" ++ x.extracted_text)
                  (a ∷ atts)));
  }
      ∷ [],
  join (codes "\n") (map (λ (x : Attachment). x.extracted_text) (a ∷ atts)),
)

-- All attachments of the conversation, on every turn.
unfoldable pub file_context : Db → Text → Option Text → List Msg × Text
file_context db ws none = ([], [])
file_context db ws (some cid) =
    attachment_context (load_attachments (set_workspace_context ws) db cid)
