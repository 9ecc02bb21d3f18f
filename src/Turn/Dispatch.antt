-- ===== src/Turn/Dispatch.antt =====
-- `chat_completions` and the whole of `_run_chat_turn`: the upload that is read, and the three ways in
-- which a turn goes on when it is prepared.
pub mod Calls
use decyra_api.Common.{
  ℕ, Bool, true, false, Option, none, some, List, [], ◌∷◌, ◌++◌, length, if◌then◌else◌, ltb,
}
use decyra_api.Common.Text.{Text}
use decyra_api.Analysis.Loop.{Sandbox}
use decyra_api.Documents.{Bytes}
use decyra_api.Store.{Msg}
use decyra_api.Turn.Analysis.{AnalysisResponse, run_analysis}
use decyra_api.Turn.Context.{analysis_upload}
use decyra_api.Turn.Request.{ChatCompletionRequest, Upload, DataSchema, Env}
use decyra_api.Turn.Run.{Prepared, Response, prepare_turn, complete_turn}
use decyra_api.Turn.Stream.{Chunk, Streams, Built, Event, stream_turn}
use decyra_api.World.{http, Outcome, ok, raised, Exec, ◌>>=◌, pure, raise}

-- The loop that counts the bytes of an upload; an empty part ends it, and `none` is status 413.
unfoldable pub read_parts : ℕ → Bytes → List Bytes → Option Bytes
read_parts max_upload_bytes buf [] = some buf
read_parts max_upload_bytes buf ([] ∷ parts) = some buf
read_parts max_upload_bytes buf ((b ∷ part) ∷ parts) =
    let rest = read_parts max_upload_bytes (buf ++ b ∷ part) parts in
    if ltb max_upload_bytes (length (buf ++ b ∷ part)) then none else rest

-- What the request carries. `none` is a field that is missing, a text that is not JSON, or JSON that the
-- request model refuses: status 422 in each case.
pub data Body : Type 0 where
  multipart : Option ChatCompletionRequest → Option (List Bytes × Option Text) → Body
  json : Option ChatCompletionRequest → Body

read_file : ℕ → Option (List Bytes × Option Text) → Outcome (Option Upload)
unfolding read_parts
read_file max_upload_bytes none = ok none
read_file max_upload_bytes (some (parts, filename)) = elim (read_parts max_upload_bytes [] parts) [
  | none ↦ raised (http 413)
  | some bytes ↦ ok (some (record { bytes = bytes; filename = filename }))
]

-- The payload and the upload, or the status that refuses them.
unfoldable pub read_body : ℕ → Body → Outcome (ChatCompletionRequest × Option Upload)
unfolding read_file
read_body max_upload_bytes (json none) = raised (http 422)
read_body max_upload_bytes (json (some payload)) = ok (payload, none)
read_body max_upload_bytes (multipart none file) = raised (http 422)
read_body max_upload_bytes (multipart (some payload) file) =
    elim (read_file max_upload_bytes file) [
      | raised e ↦ raised e
      | ok upload ↦ ok (payload, upload)
    ]

pub data TurnReply : Type 0 where
  completed : Response → TurnReply
  charted : AnalysisResponse → TurnReply
  streaming : List Event → TurnReply

-- A turn is an analysis where there is a schema, which is taken of the upload.
abbrev pub analysis_of : Option DataSchema → Option Upload → Option (DataSchema × Upload)
analysis_of none upload = none
analysis_of (some schema) none = none
analysis_of (some schema) (some u) = some (schema, u)

-- What the branches beyond the first need: the sandbox, base64, the retries, the providers of streams,
-- litellm's builder, and how long the client stays.
pub record Branches : Type 0 where
  pub box : Sandbox
  pub b64encode : Bytes → Text
  pub max_retries : ℕ
  pub streams : Streams
  pub build : List Chunk → List Msg → Option Built
  pub stays : Option ℕ
  pub max_upload_bytes : ℕ

module _ (env : Env) (branches : Branches) (user_id : Text) where
  -- The branches: an analysis, where there is one, and else with or without streaming.
  unfoldable pub take_branch :
      ChatCompletionRequest
      → Option Upload
      → Prepared
      → Option (DataSchema × Upload)
      → Bool
      → Exec TurnReply
  take_branch payload upload p (some (schema, u)) stream = do
    r ← run_analysis env branches.box branches.b64encode branches.max_retries user_id p schema u
    pure (charted r)
  take_branch payload upload p none true = do
    events ← stream_turn env payload upload user_id branches.streams branches.build p branches.stays
    pure (streaming events)
  take_branch payload upload p none false = do
    r ← complete_turn env payload upload user_id p
    pure (completed r)

  -- How a prepared turn goes on.
  unfoldable pub continue_turn : ChatCompletionRequest → Option Upload → Prepared → Exec TurnReply
  unfolding take_branch
  continue_turn payload upload p =
      take_branch payload upload p (analysis_of p.schema (analysis_upload payload upload))
        payload.stream

  unfoldable pub chat_turn : ChatCompletionRequest → Option Upload → Exec TurnReply
  unfolding continue_turn
  chat_turn payload upload =
      prepare_turn env payload upload user_id >>= continue_turn payload upload

  -- `chat_completions`
  unfoldable pub chat_completions : Body → Exec TurnReply
  unfolding read_body chat_turn
  chat_completions body = elim (read_body branches.max_upload_bytes body) [
    | raised e ↦ raise e
    | ok (payload, upload) ↦ chat_turn payload upload
  ]
