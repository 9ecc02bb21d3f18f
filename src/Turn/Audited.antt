-- ===== src/Turn/Audited.antt =====
-- Every answered chat turn is in the audit.
pub mod Writes
use decyra_api.Common.{
  true, inl, inr, Option-cases, ◌≡◌, refl, sym, ap, ◌∙◌, map, Option, none, some, List, [], ◌∷◌,
  ◌++◌, Bool,
}
use decyra_api.Common.Text.{Text}
use decyra_api.Store.{
  set_workspace_context, Db, Model, Msg, AuditRow, create_conversation, insert_attachment,
  insert_message, touch_conversation, set_conversation_mode, insert_audit_event,
}
use decyra_api.World.{
  World, Call, permanent, transient, unexpected, Outcome, ok, raised, Exec, ◌>>=◌, pure, raise,
  catch, transact,
}
use decyra_api.World.Keeps.{Keeps, Yields, Ensures, Yields-bind, Yields-then, Yields-pure}
use decyra_api.Pii.Detect.{Checker}
use decyra_api.Turn.Protection.{Yields-lift}
use decyra_api.Turn.Protection.Routing.{Masked}
use decyra_api.Turn.Protection.Routing.Honest.{IsHonest, route-IsHonest}
use decyra_api.Turn.Route.{Sources}
use decyra_api.Llm.{
  Candidate, Answer, Reply, answered, failed, settle, send, complete_with_fallback,
}
use decyra_api.Llm.Fallback.{call_of, Ended, complete_with_fallback-Ended}
use decyra_api.Chat.{persistable_messages}
use decyra_api.Llm.Answers.{complete_with_fallback-SameDb}
use Writes.{persist_turn-audit_events}
use decyra_api.Turn.Request.{ChatCompletionRequest, Upload, DataSchema, Env}
use decyra_api.Turn.Context.{Extracted, store_attachment, conversation_for}
use decyra_api.Turn.Persist.{
  TurnEnd, Completion, turn_conversation, insert_messages, persist_turn, audit_row, update_mode,
}
use decyra_api.Turn.Run.{
  Prepared, Response, turn_end, completion, call_model, complete_turn, finish_turn, run_chat_turn,
  prepare_turn, route_turn, of_provider_error, or_empty,
}
use decyra_api.Turn.Stages.{prepare_turn-Keeps}

-- What the row says of the response.
pub record Describes (user_id : Text) (r : Response) (row : AuditRow) : Type 0 where
  pub user : row.user_id ≡ user_id
  pub model : row.model ≡ r.effective_model
  pub provider : row.routed_to ≡ r.routed_to
  pub detected : row.pii_detected ≡ r.pii_detected
  pub mode : row.pii_mode ≡ r.pii_mode
  pub masked : row.anonymized ≡ r.anonymized

-- The last call of the turn was answered, and the row has its model, its provider and the answer's text;
-- where the row says so, its messages were masked.
pub record AnsweredBy (k : Checker) (provider : List Call → Call → Reply Answer) (calls : List Call)
    (row : AuditRow) (w : World) : Type 0 where
  pub tried : List Call
  pub call : Call
  pub answer : Answer
  pub called : w.calls ≡ calls ++ (tried ++ call ∷ [])
  pub replied : provider (calls ++ tried) call ≡ answered answer
  pub model : row.model ≡ call.model
  pub provider_of_model : row.routed_to ≡ call.row.provider
  pub said : row.response_text ≡ or_empty answer.content
  pub honest : row.anonymized ≡ true → Masked k call.messages

-- A call that answered, as the loop of the candidates reports it.
record Heard (provider : List Call → Call → Reply Answer) (calls : List Call) (c : Candidate)
    (a : Answer) (messages : List Msg) (w : World) : Type 0 where
  tried : List Call
  call : Call
  called : w.calls ≡ calls ++ (tried ++ call ∷ [])
  replied : provider (calls ++ tried) call ≡ answered a
  model_is : call.model ≡ c.0
  row_is : call.row ≡ c.1
  messages_is : call.messages ≡ messages

abbrev Unaudited : List AuditRow → World → Type 0
Unaudited before w = w.db.audit_events ≡ before

abbrev pub Audited :
    Checker → (List Call → Call → Reply Answer) → Text → World → Outcome Response × World → Type 0
Audited k provider user_id start (raised e, w) = w.db.audit_events ≡ start.db.audit_events
Audited k provider user_id start (ok r, w) =
    (row : AuditRow) × (w.db.audit_events ≡ start.db.audit_events ++ row ∷ [])
    × Describes user_id r row
    × AnsweredBy k provider start.calls row w

-- An operation that writes no event, and what holds where it returns.
abbrev Post : {A : Type 0} → World → (A → World → Type 0) → Outcome A × World → Type 0
Post start Q (ok a, w) = Q a w
Post start Q (raised e, w) = Unaudited start.db.audit_events w

bind-Audited :
    {A : Type 0} (k : Checker) (provider : List Call → Call → Reply Answer) (user_id : Text)
    (start : World) (Q : A → World → Type 0) (m : Exec A) (f : A → Exec Response) (w : World)
    → Post start Q (m w)
    → ((a : A) (w : World) → Q a w → Audited k provider user_id start (f a w))
    → Audited k provider user_id start ((m >>= f) w)
unfolding ◌>>=◌
bind-Audited {A} k provider user_id start Q m f w h kf = after (m w).0 (m w).1 h
  where
    after :
        (r : Outcome A) (w' : World)
        → Post start Q (r, w')
        → Audited k provider user_id start (elim r as (λ _. Outcome Response × World) [
          | ok a ↦ f a w'
          | raised e ↦ (raised e, w')
        ])
    after (ok a) w' h = kf a w' h
    after (raised e) w' h = h

-- No event is written and no call is made so far.
abbrev Untouched : World → World → Type 0
Untouched start w = (w.db.audit_events ≡ start.db.audit_events) × (w.calls ≡ start.calls)

Keeps-Post :
    {A : Type 0} (start : World) (R : A → Type 0) (m : Exec A)
    → Keeps (Untouched start) m
    → Yields R m
    → Post start (λ a w. Untouched start w × R a) (m start)
Keeps-Post {A} start R m k y = of (m start).0 (m start).1 (k.at start (refl, refl)) (y.at start)
  where
    of :
        (r : Outcome A) (w : World)
        → Untouched start w
        → Ensures R r
        → Post start (λ a w. Untouched start w × R a) (r, w)
    of (ok a) w h q = (h, q)
    of (raised e) w h q = h.0

map-last :
    (f : Candidate → Call) (cs : List Candidate) (c : Candidate)
    → map f (cs ++ c ∷ []) ≡ map f cs ++ f c ∷ []
map-last f [] c = refl
map-last f (d ∷ cs) c = ap (λ t. f d ∷ t) (map-last f cs c)

store-Untouched :
    (start : World) (env : Env) (payload : ChatCompletionRequest) (ws user_id : Text)
    (existing : Option Text) (x : Extracted)
    → Keeps (Untouched start) (transact (store_attachment env payload ws user_id existing x))
unfolding transact store_attachment conversation_for create_conversation insert_attachment
store-Untouched start env payload ws user_id none x = record { at = λ w h. h }
store-Untouched start env payload ws user_id (some cid) x = record { at = λ w h. h }

-- The candidate that the loop returns is the one whose call was answered.
abbrev HeardIn :
    (List Call → Call → Reply Answer)
    → List Call
    → List Msg
    → Outcome (Candidate × Answer)
    → World
    → Type 0
HeardIn provider calls messages (ok (c, a)) w = Heard provider calls c a messages w
HeardIn provider calls messages (raised e) w = Unit

module _ (provider : List Call → Call → Reply Answer) (messages : List Msg) where
  Ended-Heard :
      (cs : List Candidate) (w : World) (o : Outcome (Candidate × Answer)) (w' : World)
      → Ended provider messages cs w (o, w')
      → HeardIn provider w.calls messages o w'
  Ended-Heard cs w (raised e) w' h = tt
  Ended-Heard cs w (ok (c, a)) w' (s, same) = record {
    tried = map (call_of messages) s.tried;
    call = call_of messages s.last;
    called = s.called ∙ ap (λ t. w.calls ++ t) (map-last (call_of messages) s.tried s.last);
    replied = s.replied;
    model_is = ap (λ (c : Candidate). c.0) same;
    row_is = ap (λ (c : Candidate). c.1) same;
    messages_is = refl;
  }

module _ (env : Env) (payload : ChatCompletionRequest) (upload : Option Upload)
    (user_id : Text) where
  -- What holds when a model has answered: no event so far, and the answer's call.
  abbrev Spoken : World → Prepared → Candidate × Answer → World → Type 0
  Spoken start p a w =
      Unaudited start.db.audit_events w × Heard env.provider start.calls a.0 a.1 p.routed.prompt w

  caught-Post :
      (start : World) (p : Prepared) (o : Outcome (Candidate × Answer)) (w : World)
      → Unaudited start.db.audit_events w
      → HeardIn env.provider start.calls p.routed.prompt o w
      → Post start (Spoken start p) (elim o as (λ _. Outcome (Candidate × Answer) × World) [
        | ok a ↦ (ok a, w)
        | raised e ↦ (raised (of_provider_error env.is_api_error e), w)
      ])
  caught-Post start p (ok a) w h k = (h, k)
  caught-Post start p (raised e) w h k = h

  call_model-Post :
      (start : World) (p : Prepared) (w : World)
      → Untouched start w
      → Post start (Spoken start p) (call_model env payload upload user_id p w)
  unfolding call_model catch raise
  call_model-Post start p w (h, calls) =
      let x = complete_with_fallback env.provider p.candidates p.routed.prompt w in
      caught-Post start p x.0 x.1
        (ap (λ (db : Db). db.audit_events)
            ((complete_with_fallback-SameDb w.db env.provider p.routed.prompt p.candidates).at w
              refl)
          ∙ h)
        (HeardIn-along x.0 x.1 calls (
          Ended-Heard env.provider p.routed.prompt p.candidates w x.0 x.1
            (complete_with_fallback-Ended env.provider p.routed.prompt p.candidates w)))
    where
      HeardIn-along :
          (o : Outcome (Candidate × Answer)) (v : World) {cs ds : List Call}
          → cs ≡ ds
          → HeardIn env.provider cs p.routed.prompt o v
          → HeardIn env.provider ds p.routed.prompt o v
      HeardIn-along o v e k = rw (sym e) k

  describes :
      (p : Prepared) (a : Candidate × Answer) (cid : Text) (content : Text)
      → Describes user_id
          (record {
            conversation_id = cid;
            content = content;
            effective_model = a.0.0;
            routed_to = a.0.1.provider;
            pii_check = p.routed.outcome.status;
            pii_detected = p.routed.outcome.is_detected;
            anonymized = p.routed.anonymized;
            pii_mode = p.mode;
          })
          (audit_row env.next_id
            (turn_end env payload upload user_id p a.0)
            (completion env payload upload user_id a.1))
  unfolding audit_row turn_end
  describes p a cid content = record {
    user = refl;
    model = refl;
    provider = refl;
    detected = refl;
    mode = refl;
    masked = refl;
  }

  Masked-along : {ms ns : List Msg} → ms ≡ ns → Masked env.checker ns → Masked env.checker ms
  Masked-along e h = rw e h

  -- The row names the call that was answered, in every world with the same calls.
  names_call :
      (start : World) (p : Prepared) (a : Candidate × Answer) (w v : World)
      → v.calls ≡ w.calls
      → Heard env.provider start.calls a.0 a.1 p.routed.prompt w
      → IsHonest env.checker p.routed
      → AnsweredBy env.checker env.provider start.calls
          (audit_row env.next_id
            (turn_end env payload upload user_id p a.0)
            (completion env payload upload user_id a.1))
          v
  unfolding audit_row turn_end completion
  names_call start p a w v same k h = record {
    tried = k.tried;
    call = k.call;
    answer = a.1;
    called = same ∙ k.called;
    replied = k.replied;
    model = sym k.model_is;
    provider_of_model = ap (λ (r : Model). r.provider) (sym k.row_is);
    said = refl;
    honest = λ e. Masked-along k.messages_is (h e);
  }

  finish_turn-Audited :
      (start : World) (p : Prepared) (a : Candidate × Answer) (w : World)
      → IsHonest env.checker p.routed
      → Spoken start p a w
      → Audited env.checker env.provider user_id start
          (finish_turn env payload upload user_id p a w)
  unfolding finish_turn transact pure ◌>>=◌
  finish_turn-Audited start p a w honest (h, k) =
      let t = turn_end env payload upload user_id p a.0 in
      let c = completion env payload upload user_id a.1 in
      let row = audit_row env.next_id t c in
      (
        row,
        persist_turn-audit_events env.next_id t c w.db
            ∙ ap (λ (es : List AuditRow). es ++ row ∷ []) h,
        describes p a _ _,
        names_call start p a w _ refl k honest,
      )

  complete_turn-Audited :
      (start : World) (p : Prepared) (w : World)
      → Untouched start w × IsHonest env.checker p.routed
      → Audited env.checker env.provider user_id start
          (complete_turn env payload upload user_id p w)
  unfolding complete_turn
  complete_turn-Audited start p w (h, honest) =
      bind-Audited env.checker env.provider user_id start (Spoken start p)
        (call_model env payload upload user_id p) (finish_turn env payload upload user_id p) w
        (call_model-Post start p w h) (λ a v spoken. finish_turn-Audited start p a v honest spoken)

  route_turn-IsHonest :
      (ws : Text) (row : Model) (cid : Option Text) (schema : Option DataSchema) (s : Sources)
      → Yields
          (λ (p : Prepared). IsHonest env.checker p.routed)
          (route_turn env payload upload user_id ws row cid schema s)
  unfolding route_turn
  route_turn-IsHonest ws row cid schema s = Yields-then _ _ (
      Yields-bind _ _ (λ db. Yields-lift _ _ (λ routed e.
        Yields-pure _ (route-IsHonest env.settings env.checker db payload.model row _ s routed e))))

  prepare_turn-IsHonest :
      Yields
        (λ (p : Prepared). IsHonest env.checker p.routed)
        (prepare_turn env payload upload user_id)
  unfolding prepare_turn
  prepare_turn-IsHonest = Yields-bind _ _ (λ db. Yields-bind _ _ (λ member. Yields-bind _ _ (λ row.
      Yields-bind _ _ (λ opened. Yields-bind _ _ (λ schema. Yields-bind _ _ (λ cid.
        Yields-bind _ _ (λ db'. route_turn-IsHonest member.workspace_id row cid schema _)))))))

  -- A chat turn that answers adds one audit event: of the model and the provider of the turn's last call, with
  -- the text that the provider answered to that call, and with the model, PII mode, detection and masking
  -- that the response states; where it says that the turn was anonymised, the messages of that call are what
  -- the anonymiser made. A turn that ends with an error adds none.
  pub run_chat_turn-Audited :
      (w : World)
      → Audited env.checker env.provider user_id w (run_chat_turn env payload upload user_id w)
  unfolding run_chat_turn
  run_chat_turn-Audited w =
      bind-Audited env.checker env.provider user_id w
        (λ p v. Untouched w v × IsHonest env.checker p.routed) _ _ w
        (Keeps-Post w (λ (p : Prepared). IsHonest env.checker p.routed) _
          (prepare_turn-Keeps (Untouched w) env payload (store-Untouched w env payload) upload
            user_id)
          prepare_turn-IsHonest)
        (complete_turn-Audited w)
