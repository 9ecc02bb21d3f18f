-- ===== src/Lib.antt =====
-- A verification library for the chat backend: what a request to /v1/chat/completions may send to a
-- model provider, plain, streamed or in an analysis, what the PII filter does to texts and undoes in
-- answers, which provider is called, what is written, and who joins which workspace.
--
-- The program's parts. A chat turn (`_run_chat_turn` of app/main.py) resolves the membership of the user
-- (app/invitations.py), opens the conversation (app/chat.py), gathers the five sources of the prompt
-- (history, retrieved chunks of app/retrieval.py, attachments of app/attachments.py and
-- app/documents.py, the schema of an analysis upload, new messages), decides on the model and the masking
-- (app/pii.py and `_resolve_effective_model`), calls providers along the fallback candidates
-- (app/llm_call.py), and writes the turn with its audit event. An upload to analyse goes to the loop of
-- app/analysis.py, which has code written, runs it in the sandbox, and asks again with feedback where it failed.
--
-- The files:
--   Common: texts as lists of code points, Python's tests, lists and dicts, the UTF-8 and cp1252 decoders.
--   Pii: app/pii.py. Pii.Placeholder is `_PLACEHOLDER_RE` and `deanonymize`, Pii.Stream is
--     `StreamDeanonymizer`, Pii.SteuerId the check digit, Pii.Spans and Pii.Anonymizer the class
--     `Anonymizer`, Pii.Detect the recognisers, Presidio's calls and `anonymize_messages`; the files below
--     the two have the lemmas on spans, on the reverse table and on undoing a masking.
--   Store: the tables and the SQL helpers of app/chat.py, app/attachments.py, app/code_audit.py and
--     app/invitations.py. A query sees the rows of the workspace that the session names.
--   World: the state of a request (database, calls to providers, error log) and its exceptions as a state
--     and exception monad; World.Keeps has the rules for invariants.
--   Llm: app/llm_call.py. A provider is a function of the calls made before and of the call.
--   Chat, Retrieval, Documents: app/chat.py, app/retrieval.py, app/documents.py.
--   Analysis: app/analysis.py, `generate_and_run` with its feedback. The sandbox is a function.
--   Turn: `_run_chat_turn` and its helpers in app/main.py. Turn.Request is the input, Turn.Context gathers
--     the sources, Turn.Route decides, Turn.Persist writes, Turn.Run composes the stages.
--     Turn.Analysis is `_run_analysis`, Turn.Stream the streamed answer with a client that may leave,
--     Turn.Dispatch the whole of `chat_completions`.
--   Invitations: app/invitations.py, its endpoints, app/onboarding.py and the SQL functions of
--     alembic/versions/b8e4f2a16c9d_invitations.py. Invitations.Membership is what later requests leave
--     of a membership.
--   Audit: app/audit.py and the trigger audit_events_hash_chain of
--     alembic/versions/f1a2b3c4d5e6_strict_mode_4_5b.py. The table holds the rows of all
--     workspaces; Audit.Inserts is about inserts into it.
--     Audit.Endpoints is app/verify_token.py with the two endpoints of app/main.py that verify a chain.
--   Conversations: the two endpoints of app/main.py that read conversations.
--   Auth: app/auth.py.
--   Chunking: app/chunking.py.
--   Embeddings: app/embeddings.py, on the rows of documents and their chunks.
--   Examples: runs at concrete inputs, and each theorem applied to one.
--
-- Recursion is structural (the analysis loop on its retries) but for three functions on fuel: `decimal`, on
-- one more than its number, which has no more digits than that, and the outer loop of `chunk_text`, on the
-- number of words, and `embed_texts`, on the number of texts, of which each batch takes at least one. Numbers
-- are natural numbers, as Python's integers do not wrap. A cost is counted in millionths, where the program
-- divides floats.
--
-- Parameters: Presidio's HTTP service, the table behind `\w` of regular expressions, the LLM providers, the
-- embedding provider with pgvector's search, the parsers of PDF, DOCX, XLSX and ZIP files, pandas, the sandbox
-- runner, LiteLLM's rebuilding of a streamed response, the moment a client leaves, the token of an invitation
-- and the ids of new rows, the collation of ORDER BY, SHA-256, the format of timestamps, `gen_random_uuid`,
-- `UUID(s)` and PostgreSQL's reading of a UUID, and PyJWT with its key sets.
--
-- Not modelled: upload and deletion of documents with their storage, the list of models, and the inside of the
-- sandbox; FastAPI's wiring, mail, settings from the environment, and the SQL migrations other than the tables
-- and functions named above. The log entries of a call leave out the ids of workspace and user, and an answer
-- with an error its detail.
pub mod Analysis
pub mod Audit
pub mod Auth
pub mod Chat
pub mod Chunking
pub mod Common
pub mod Conversations
pub mod Documents
pub mod Embeddings
pub mod Examples
pub mod Invitations
pub mod Llm
pub mod Pii
pub mod Retrieval
pub mod Store
pub mod Turn
pub mod World
