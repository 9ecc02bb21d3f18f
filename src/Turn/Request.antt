-- ===== src/Turn/Request.antt =====
-- What a chat turn is given: the request, the settings and the outside world.
use decyra_api.Common.{ℕ, Bool, Option, List}
use decyra_api.Common.Text.{Text}
use decyra_api.Store.{Msg}
use decyra_api.World.{Call, Permanent}
use decyra_api.Llm.{Reply, Answer}
use decyra_api.Pii.Detect.{Checker}
use decyra_api.Retrieval.{Search}
use decyra_api.Documents.{Bytes, Parsers}

-- `ChatCompletionRequest`. The sampling options are passed through unread.
pub record ChatCompletionRequest : Type 0 where
  pub model : Text
  pub messages : List Msg
  pub stream : Bool
  pub conversation_id : Option Text
  pub pii_mode : Option Text
  pub use_company_knowledge : Bool
  pub use_code_interpreter : Bool

pub record Upload : Type 0 where
  pub bytes : Bytes
  pub filename : Option Text

pub record DataSchema : Type 0 where
  pub columns : List Text
  pub dtypes : List (Text × Text)
  pub row_count : ℕ

pub record Settings : Type 0 where
  pub sovereign_model : Text
  pub fallback_models : List Text
  pub max_extracted_chars : ℕ

-- Everything that is not in the repository: see the fields' own modules. `uuid_parses` is `UUID(s)`,
-- `extract_schema` is the pandas parser, and `is_api_error` whether `except litellm.APIError` catches.
pub record Env : Type 1 where
  pub settings : Settings
  pub checker : Checker
  pub search : Search
  pub parsers : Parsers
  pub provider : List Call → Call → Reply Answer
  pub is_api_error : Permanent → Bool
  pub name_le : Text → Text → Bool
  pub next_id : Text → Text
  pub uuid_parses : Text → Bool
  pub extract_schema : Bytes → Option DataSchema
