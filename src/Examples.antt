-- ===== src/Examples.antt =====
-- Concrete inputs: runs of the definitions, and the theorems applied to them.
mod Analysis
mod Audit
mod Invitations
mod Masking
mod Streams
mod Embeddings
mod Users
mod Reading
mod Texts
use decyra_api.Common.{
  ℕ, ◌≡◌, ◌≢◌, ◌≤◌, refl, true, false, none, some, List, [], ◌∷◌, All, arith, length, concat,
  nat_eq, list_eq,
}
use decyra_api.Common.Text.{Text, codes, is_ascii_letter, ascii_upper, is_space, is_digit, join}
use decyra_api.Chunking.{
  chunk_text, word_chunks, split_words, chunks_from, pack, advance, back_up, est_tokens,
  next_chunks,
}
use decyra_api.Chunking.Coverage.{Covers, Fits, word_chunks-Covers, word_chunks-Fits}
use decyra_api.Store.{Db, Model, resolve_membership, enabled_model}
use decyra_api.Turn.Context.{
  open_conversation, analysis_intake, analysis_upload, attach, rag_context, file_context,
}
use decyra_api.Turn.Route.{
  routing_text, llm_input, route, resolve_pii_mode, workspace_pii_mode, resolve_effective_model,
  route_plain, route_masked,
}
use decyra_api.World.{
  World, ◌>>=◌, gets, or_raise, pure, ◌>>◌, require, catch, transact, Call, transient,
}
use decyra_api.Chat.{user}
use decyra_api.Documents.{Parsers}
use decyra_api.Retrieval.{Search}
use decyra_api.Llm.{
  Answer, Reply, answered, failed, Candidate, build_candidates, complete_with_fallback,
}
use decyra_api.Llm.Candidates.{build_candidates-sovereign, build_candidates-IsDistinct, IsDistinct}
use decyra_api.Llm.Fallback.{complete_with_fallback-Ended, Ended}
use decyra_api.Pii.Detect.{Checker, needs_protection, contains_pii, has_local_pii, kundennummer}
use decyra_api.Pii.Placeholder.Scan.{length-match_at}
use decyra_api.Pii.Placeholder.{
  until_close, match_body, skip_dcy, drop_while, match_groups, close_body, take_while, skip_joint,
  is_letter, letter_upper, replace, scan, Mapping, deanonymize, match_at,
}
use decyra_api.Pii.Stream.{
  start, feed, stream, max_ph, flush, hold_start, rfind_open, starts_open, has_close, tail_start,
  ends_open,
}
use decyra_api.Pii.Stream.Laws.{IsShort, stream-deanonymize, feed-buffer-le}
use decyra_api.Pii.Spans.{Span, resolve_overlaps}
use decyra_api.Pii.Spans.Overlaps.{
  AreApart, Meets, resolve_overlaps-AreApart, resolve_overlaps-Meets,
}
use decyra_api.Pii.SteuerId.{check_digit}
use decyra_api.Pii.SteuerId.Errors.{check_digit-injective_at}
use decyra_api.Turn.Request.{ChatCompletionRequest, Env}
use decyra_api.Turn.Run.{call_model, run_chat_turn}
use decyra_api.Turn.Audited.{Audited, run_chat_turn-Audited}
use decyra_api.Turn.Protection.{Protected, run_chat_turn-Protected}

abbrev pub eu_model : Model
eu_model = record {
  name = codes "eu";
  provider = codes "mistral";
  cost_input = 1;
  cost_output = 2;
  sovereign_eligible = true;
  enabled = true;
}

abbrev us_model : Model
us_model = record {
  name = codes "us";
  provider = codes "openai";
  cost_input = 3;
  cost_output = 4;
  sovereign_eligible = false;
  enabled = true;
}

abbrev pub some_db : Db
some_db = record {
  models = us_model ∷ eu_model ∷ [];
  members =
      (
        codes "ada",
        record { organization_id = codes "org"; workspace_id = codes "ws"; role = codes "owner" },
      )
      ∷ [];
  workspace_modes = [];
  conversations = [];
  messages = [];
  attachments = [];
  audit_events = [];
  code_events = [];
  now = 0;
  fresh_id = codes "i";
}

abbrev pub some_world : World
some_world = record { db = some_db; calls = []; errors = [] }

-- A checker that is up and finds nothing, so that only the local recognisers do.
abbrev some_checker : Checker
some_checker = record {
  is_word = is_ascii_letter;
  presidio_url = some (codes "http://presidio/");
  post = λ url text. some [];
}

abbrev no_search : Search
no_search = record {
  Similarity = ℕ;
  embed = λ t. none;
  has_chunks = λ ctx ws. false;
  nearest = λ ctx ws v k. [];
  reaches_threshold = λ s. true;
  top_k = 4;
}

abbrev no_parsers : Parsers
no_parsers = record {
  guess = λ b. none;
  zip = λ b. none;
  pdf_text = λ b. none;
  docx_text = λ b. none;
  xlsx_text = λ b. none;
}

abbrev some_answer : Answer
some_answer = record {
  model = none;
  role = codes "assistant";
  content = some (codes "Hallo");
  finish_reason = codes "stop";
  prompt_tokens = 5;
  completion_tokens = 1;
}

abbrev pub some_env : Env
some_env = record {
  settings = record {
    sovereign_model = codes "eu";
    fallback_models = codes "eu" ∷ [];
    max_extracted_chars = 100;
  };
  checker = some_checker;
  search = no_search;
  parsers = no_parsers;
  provider = λ before call. answered some_answer;
  is_api_error = λ p. true;
  name_le = λ a b. true;
  next_id = λ t. b'i' ∷ t;
  uuid_parses = λ t. true;
  extract_schema = λ b. none;
}

abbrev asks : Text → ChatCompletionRequest
asks question = record {
  model = codes "us";
  messages = record { role = user; content = question } ∷ [];
  stream = false;
  conversation_id = none;
  pii_mode = none;
  use_company_knowledge = false;
  use_code_interpreter = false;
}

-- A message with a customer number, which the local recogniser finds.
abbrev pub secret : ChatCompletionRequest
secret = asks (codes "Kundennummer: 12345")

run_chat_turn-Protected_example :
    All
      (Protected some_checker)
      (run_chat_turn some_env secret none (codes "ada") some_world).1.calls
run_chat_turn-Protected_example =
    run_chat_turn-Protected some_env secret none (codes "ada") some_world tt

run_chat_turn-Audited_example :
    Audited some_env.checker some_env.provider
      (codes "ada")
      some_world
      (run_chat_turn some_env secret none (codes "ada") some_world)
run_chat_turn-Audited_example = run_chat_turn-Audited some_env secret none (codes "ada") some_world

-- The call that goes out: the customer number sends it to the sovereign model.
names_of : List Call → List Text
names_of [] = []
names_of (c ∷ cs) = c.model ∷ names_of cs

secret_goes_to_eu :
    names_of (run_chat_turn some_env secret none (codes "ada") some_world).1.calls ≡ codes "eu" ∷ []
unfolding run_chat_turn names_of ◌>>=◌ gets or_raise resolve_membership enabled_model
    open_conversation pure analysis_intake analysis_upload attach ◌>>◌ require route
    resolve_pii_mode workspace_pii_mode needs_protection contains_pii complete_with_fallback
    build_candidates call_model catch transact resolve_effective_model route_plain route_masked
    rag_context file_context has_local_pii routing_text llm_input kundennummer ascii_upper
    is_ascii_letter take_while is_space is_letter is_digit
secret_goes_to_eu = refl

build_candidates-sovereign_example :
    All
      (λ (c : Candidate). c.1.sovereign_eligible ≡ true)
      (build_candidates (λ a b. true) [] some_db (codes "eu") eu_model)
build_candidates-sovereign_example =
    build_candidates-sovereign (λ a b. true) [] some_db (codes "eu") eu_model refl

build_candidates-IsDistinct_example :
    IsDistinct
      (build_candidates (λ a b. true) (codes "us" ∷ codes "eu" ∷ []) some_db (codes "us") us_model)
build_candidates-IsDistinct_example =
    build_candidates-IsDistinct (λ a b. true) (codes "us" ∷ codes "eu" ∷ []) some_db (codes "us")
      us_model

-- The first provider is down.
abbrev us_down : List Call → Call → Reply Answer
us_down [] call = failed transient
us_down (c ∷ cs) call = answered some_answer

abbrev two_candidates : List Candidate
two_candidates = (codes "us", us_model) ∷ (codes "eu", eu_model) ∷ []

complete_with_fallback-Ended_example :
    Ended us_down [] two_candidates some_world
      (complete_with_fallback us_down two_candidates [] some_world)
complete_with_fallback-Ended_example =
    complete_with_fallback-Ended us_down [] two_candidates some_world
