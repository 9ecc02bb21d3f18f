-- ===== src/Turn/Dispatch/Calls.antt =====
-- Which calls a turn makes, in whichever branch.
use decyra_api.Common.{
  ◌≡◌, refl, inl, inr, Bool, true, false, Option, none, some, List, All, All-map, Option-cases,
}
use decyra_api.Common.Text.{Text}
use decyra_api.Llm.{Candidate}
use decyra_api.Llm.Fallback.{call_of, complete_with_fallback-Keeps}
use decyra_api.Pii.Anonymizer.{empty}
use decyra_api.Pii.Detect.{Checker, anonymize_messages}
use decyra_api.Store.{Msg}
use decyra_api.Turn.Analysis.Protection.{
  MaskedFrom, TurnProtected, Usable, Keeps-transact, run_analysis-Keeps, prepare_turn-Usable,
}
use decyra_api.Turn.Dispatch.{
  Body, Branches, read_body, take_branch, continue_turn, chat_turn, chat_completions,
}
use decyra_api.Turn.Protection.{Protected, Ready, prepare_turn-Ready}
use decyra_api.Turn.Protection.Routing.{Masked}
use decyra_api.Turn.Protection.Routing.Ways.{begun}
use decyra_api.Turn.Request.{ChatCompletionRequest, Upload, DataSchema, Env}
use decyra_api.Turn.Run.{Prepared, prepare_turn, call_model, complete_turn, finish_turn}
use decyra_api.Turn.Stages.{prepare_turn-Keeps}
use decyra_api.Turn.Stream.{Opened, open_error, streamed, stream_turn, open_stream_with_fallback}
use decyra_api.World.{World, Call, Outcome, ok, raised, raise, Outcome-cases}
use decyra_api.World.Keeps.{
  Keeps, Keeps-pure, Keeps-raise, Keeps-bind, Keeps-catch, Keeps-bind-Yields, Yields, Ensures,
}

MaskedFrom-Masked : (k : Checker) (ms : List Msg) → Masked k ms → MaskedFrom k ms
unfolding anonymize_messages
MaskedFrom-Masked k ms (input, a, e) = (input, empty, a, begun, e)

TurnProtected-Protected :
    (env : Env) (b : Branches) (c : Call)
    → Protected env.checker c
    → TurnProtected env.checker b.box.is_word c
TurnProtected-Protected env b c (n, inl e) = (n, inl e)
TurnProtected-Protected env b c (n, inr (inl m)) =
    (n, inr (inl (MaskedFrom-Masked env.checker c.messages m)))
TurnProtected-Protected env b c (n, inr (inr h)) = (n, inr (inr (inl h)))

both :
    {A : Type 0} (Q R : A → Type 0) (o : Outcome A)
    → Ensures Q o
    → Ensures R o
    → Ensures (λ a. Q a × R a) o
both Q R (ok a) q r = (q, r)
both Q R (raised e) q r = tt

module _ (env : Env) (branches : Branches) (user_id : Text) (payload : ChatCompletionRequest)
    (upload : Option Upload) where
  abbrev Guarded : World → Type 0
  Guarded w = All (TurnProtected env.checker branches.box.is_word) w.calls

  abbrev Askable : Prepared → Type 0
  Askable p =
      All
        (λ (c : Candidate).
          TurnProtected env.checker branches.box.is_word (call_of p.routed.prompt c))
        p.candidates

  Ready-Askable : (p : Prepared) → Ready env.checker p → Askable p
  Ready-Askable p h =
      All-map _ _ p.candidates
        (λ (c : Candidate) q. TurnProtected-Protected env branches (call_of p.routed.prompt c) q) h

  Ensures-map : (o : Outcome Prepared) → Ensures (Ready env.checker) o → Ensures Askable o
  Ensures-map (ok p) h = Ready-Askable p h
  Ensures-map (raised e) h = tt

  complete-Keeps :
      (p : Prepared) → Askable p → Keeps Guarded (complete_turn env payload upload user_id p)
  unfolding complete_turn call_model finish_turn
  complete-Keeps p h =
      Keeps-bind _ _
        (Keeps-catch _ _
          (complete_with_fallback-Keeps env.provider p.routed.prompt
            (TurnProtected env.checker branches.box.is_word) p.candidates h)
          (λ e. Keeps-raise _))
        (λ a.
          Keeps-bind _ _ (Keeps-transact env.checker branches.box.is_word _) (λ cid. Keeps-pure _))

  streamed-calls :
      (p : Prepared) (r : Outcome (Candidate × Opened)) (w : World)
      → (streamed env payload upload user_id branches.streams branches.build p branches.stays
          (r, w)).1.calls
        ≡ w.calls
  unfolding streamed
  streamed-calls p (ok a) w = refl
  streamed-calls p (raised e) w = elim (Option-cases (open_error env.is_api_error e)) [
    | inl q ↦ rw (q, streamed) refl
    | inr (text, q) ↦ rw (q, streamed) refl
  ]

  streamed-Guarded :
      (p : Prepared) (x : Outcome (Candidate × Opened) × World)
      → Guarded x.1
      → Guarded
          (streamed env payload upload user_id branches.streams branches.build p branches.stays x).1
  streamed-Guarded p (r, w) h = rw (streamed-calls p r w) h

  stream-Keeps :
      (p : Prepared)
      → Askable p
      → Keeps Guarded
          (stream_turn env payload upload user_id branches.streams branches.build p branches.stays)
  unfolding stream_turn open_stream_with_fallback
  stream-Keeps p h = record {
    at = λ w before. streamed-Guarded p _ (
        (complete_with_fallback-Keeps _ p.routed.prompt
            (TurnProtected env.checker branches.box.is_word) p.candidates h).at
          w before);
  }

  take_branch-Keeps :
      (p : Prepared) (a : Option (DataSchema × Upload)) (stream : Bool)
      → Askable p
      → Usable env.checker p
      → Keeps Guarded (take_branch env branches user_id payload upload p a stream)
  unfolding take_branch
  take_branch-Keeps p (some (schema, u)) stream askable usable =
      Keeps-bind _ _
        (run_analysis-Keeps env branches.box schema p branches.b64encode branches.max_retries
          user_id u usable)
        (λ r. Keeps-pure _)
  take_branch-Keeps p none true askable usable =
      Keeps-bind _ _ (stream-Keeps p askable) (λ r. Keeps-pure _)
  take_branch-Keeps p none false askable usable =
      Keeps-bind _ _ (complete-Keeps p askable) (λ r. Keeps-pure _)

  continue_turn-Keeps :
      (p : Prepared)
      → Askable p × Usable env.checker p
      → Keeps Guarded (continue_turn env branches user_id payload upload p)
  unfolding continue_turn
  continue_turn-Keeps p (askable, usable) = take_branch-Keeps p _ payload.stream askable usable

  prepare_turn-both :
      Yields (λ p. Askable p × Usable env.checker p) (prepare_turn env payload upload user_id)
  prepare_turn-both = record {
    at = λ w.
        both Askable (Usable env.checker) _
          (Ensures-map (prepare_turn env payload upload user_id w).0
            ((prepare_turn-Ready env payload upload user_id).at w))
          ((prepare_turn-Usable env payload upload user_id).at w);
  }

  chat_turn-Keeps : Keeps Guarded (chat_turn env branches user_id payload upload)
  unfolding chat_turn
  chat_turn-Keeps =
      Keeps-bind-Yields (λ p. Askable p × Usable env.checker p) _ _
        (prepare_turn-Keeps Guarded env payload
          (λ ws u c x. Keeps-transact env.checker branches.box.is_word _) upload user_id)
        prepare_turn-both continue_turn-Keeps

-- If every call so far was to the model of its row, and that row is sovereign, or the messages are ones that
-- an anonymiser made which has come about from the empty one by masking, or all user messages stand in a
-- text that was checked and found clean, or the messages ask for code to a question that was so checked,
-- then so are all calls after a request: with or without streaming, with or without an analysis and its
-- retries, however the request ends and whenever the client leaves.
pub chat_completions-Protected :
    (env : Env) (branches : Branches) (user_id : Text) (body : Body) (w : World)
    → All (TurnProtected env.checker branches.box.is_word) w.calls
    → All
        (TurnProtected env.checker branches.box.is_word)
        (chat_completions env branches user_id body w).1.calls
unfolding chat_completions raise
chat_completions-Protected env branches user_id body w h =
    elim (Outcome-cases (read_body branches.max_upload_bytes body)) [
      | inl (e, q) ↦ rw (q, chat_completions) h
      | inr ((payload, upload), q) ↦
          rw (q, chat_completions) ((chat_turn-Keeps env branches user_id payload upload).at w h)
    ]
