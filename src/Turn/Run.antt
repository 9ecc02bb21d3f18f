-- ===== src/Turn/Run.antt =====
-- `_run_chat_turn`: the stages in their order, and the non-streaming end.
use decyra_api.Common.{Bool, Option, none, some, List, [], if◌then◌else◌}
use decyra_api.Common.Text.{Text}
use decyra_api.Store.{set_workspace_context, Model, resolve_membership, enabled_model, Msg}
use decyra_api.World.{
  Permanent, bad_request, Exc, http, unhandled, providers_unavailable, provider_error, Exec, ◌>>=◌,
  ◌>>◌, pure, raise, catch, gets, transact, require, or_raise,
}
use decyra_api.Llm.{Candidate, Answer, build_candidates, complete_with_fallback}
use decyra_api.Pii.Detect.{PiiStatus}
use decyra_api.Turn.Request.{ChatCompletionRequest, Upload, DataSchema, Env}
use decyra_api.Turn.Route.{
  Sources, Routed, llm_input, user_text, route, resolve_pii_mode, audit_with_context, mode_is_valid,
}
use decyra_api.Turn.Context.{
  open_conversation, rag_context, analysis_upload, analysis_intake, schema_context, attach,
  file_context, lift,
}
use decyra_api.Turn.Persist.{Completion, TurnEnd, display, persist_turn}

-- A turn that is ready to call a model.
pub record Prepared : Type 0 where
  pub ws : Text
  pub existing_cid : Option Text
  pub mode : Text
  pub schema : Option DataSchema
  pub routed : Routed
  pub question : Text
  pub audit_request : Text
  pub candidates : List Candidate

-- The statuses that the handlers give the errors of a call.
unfoldable pub of_provider_error : (Permanent → Bool) → Exc → Exc
of_provider_error is_api_error (provider_error bad_request) = http 400
of_provider_error is_api_error (provider_error p) = if is_api_error p then http 502 else unhandled
of_provider_error is_api_error providers_unavailable = http 503
of_provider_error is_api_error e = e

abbrev pub or_empty : Option Text → Text
or_empty none = []
or_empty (some t) = t

-- The response, with the fields of the status block that depend on the turn.
pub record Response : Type 0 where
  pub conversation_id : Text
  pub content : Text
  pub effective_model : Text
  pub routed_to : Text
  pub pii_check : PiiStatus
  pub pii_detected : Bool
  pub anonymized : Bool
  pub pii_mode : Text

module _ (env : Env) (payload : ChatCompletionRequest) (upload : Option Upload)
    (user_id : Text) where
  sources : List Msg → List Msg × Text → List Msg × Text → List Msg × Text → Sources
  sources history (rag, rag_text) (file, file_text) (schema, schema_text) = record {
    history = history;
    rag_context = rag;
    file_context = file;
    schema_context = schema;
    new_messages = payload.messages;
    rag_text = rag_text;
    file_text = file_text;
    schema_text = schema_text;
  }

  -- The routing of a turn whose sources are gathered.
  unfoldable pub route_turn :
      Text → Model → Option Text → Option DataSchema → Sources → Exec Prepared
  route_turn ws row cid schema s = do
    require (mode_is_valid payload.pii_mode) (http 400)
    db ← gets (λ w. w.db)
    let mode = resolve_pii_mode (set_workspace_context ws) db ws cid payload.pii_mode
    routed ← lift (route env.settings env.checker db payload.model row mode s)
    pure (record {
      ws = ws;
      existing_cid = cid;
      mode = mode;
      schema = schema;
      routed = routed;
      question = user_text (llm_input s);
      audit_request = audit_with_context s routed;
      candidates =
          build_candidates env.name_le env.settings.fallback_models db routed.effective_model
            routed.row;
    })

  -- From the membership to the candidates.
  unfoldable pub prepare_turn : Exec Prepared
  unfolding sources route_turn
  prepare_turn = do
    db ← gets (λ w. w.db)
    member ← or_raise (resolve_membership db user_id) (http 403)
    let ws = member.workspace_id
    row ← or_raise (enabled_model db payload.model) (http 400)
    opened ← lift (open_conversation env db ws user_id payload.conversation_id)
    let rag = rag_context env payload ws
    schema ← lift (analysis_intake env (analysis_upload payload upload))
    cid ← attach env payload ws user_id opened.0 upload
    db' ← gets (λ w. w.db)
    route_turn ws row cid schema
        (sources opened.1 rag (file_context db' ws cid) (schema_context schema))

  unfoldable pub turn_end : Prepared → Candidate → TurnEnd
  turn_end p (model, row) = record {
    ws = p.ws;
    user_id = user_id;
    existing_cid = p.existing_cid;
    new_messages = payload.messages;
    model = model;
    row = row;
    pii_detected = p.routed.outcome.is_detected;
    pii_mode = p.mode;
    anonymized = p.routed.anonymized;
    anonymizer = p.routed.anonymizer;
    audit_request = p.audit_request;
    conv_pii_mode = payload.pii_mode;
  }

  -- The call of the provider with its handlers.
  unfoldable pub call_model : Prepared → Exec (Candidate × Answer)
  call_model p =
      catch (complete_with_fallback env.provider p.candidates p.routed.prompt)
        (λ e. raise (of_provider_error env.is_api_error e))

  unfoldable pub completion : Answer → Completion
  completion a = record {
    content = or_empty a.content;
    prompt_tokens = a.prompt_tokens;
    completion_tokens = a.completion_tokens;
  }

  -- What follows the answer of a model: the write transaction, and the response.
  unfoldable pub finish_turn : Prepared → Candidate × Answer → Exec Response
  unfolding turn_end completion
  finish_turn p answered = do
    let t = turn_end p answered.0
    cid ← transact (persist_turn env.next_id t (completion answered.1))
    pure (record {
      conversation_id = cid;
      content = display p.routed.anonymizer (or_empty answered.1.content);
      effective_model = t.model;
      routed_to = t.row.provider;
      pii_check = p.routed.outcome.status;
      pii_detected = p.routed.outcome.is_detected;
      anonymized = p.routed.anonymized;
      pii_mode = p.mode;
    })

  -- The non-streaming end of a turn that is no analysis.
  unfoldable pub complete_turn : Prepared → Exec Response
  unfolding call_model finish_turn
  complete_turn p = call_model p >>= finish_turn p

  -- `_run_chat_turn` of a request that is neither streamed nor an analysis.
  unfoldable pub run_chat_turn : Exec Response
  unfolding prepare_turn complete_turn
  run_chat_turn = do p ← prepare_turn; complete_turn p
