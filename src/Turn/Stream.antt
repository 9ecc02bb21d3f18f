-- ===== src/Turn/Stream.antt =====
-- `_stream_turn`: the events of a streamed turn, and what is written however it ends.
pub mod Delivered
pub mod Written
use decyra_api.Common.{
  ℕ, zero, suc, Bool, true, false, Option, none, some, List, [], ◌∷◌, ◌++◌, if◌then◌else◌,
}
use decyra_api.Common.Text.{Text, codes}
use decyra_api.Llm.{Candidate, Reply, answered, failed, complete_with_fallback}
use decyra_api.Pii.Anonymizer.{Anonymizer}
use decyra_api.Pii.Detect.{PiiStatus}
use decyra_api.Pii.Stream.{StreamDeanonymizer, start, feed, flush}
use decyra_api.Store.{Db, Msg}
use decyra_api.Turn.Persist.{Completion, TurnEnd, persist_turn}
use decyra_api.Turn.Request.{ChatCompletionRequest, Upload, Env}
use decyra_api.Turn.Run.{Prepared, turn_end, or_empty}
use decyra_api.World.{
  Permanent, bad_request, World, Call, CallError, Exc, providers_unavailable, provider_error,
  Outcome, ok, raised, Exec,
}

-- A chunk of a provider's stream, with its one choice.
pub record Chunk : Type 0 where
  pub id : Option Text
  pub model : Option Text
  pub role : Option Text
  pub content : Option Text
  pub finish_reason : Option Text

-- An exception that a stream raises when its next chunk is asked for, and its text.
abbrev pub Failure : Type 0
Failure = CallError × Text

-- What `litellm.completion(stream=True)` returns: the chunks that the iterator gives, and the exception
-- that ends it, if one does.
pub record RawStream : Type 0 where
  pub chunks : List Chunk
  pub failure : Option Failure

-- A stream whose first chunk is in hand.
pub record Opened : Type 0 where
  pub first : Option Chunk
  pub rest : List Chunk
  pub failure : Option Failure

abbrev pub force_first : List Chunk → Option Failure → Reply Opened
force_first [] none = answered (record { first = none; rest = []; failure = none })
force_first [] (some (e, text)) = failed e
force_first (c ∷ cs) failure = answered (record { first = some c; rest = cs; failure = failure })

abbrev pub open_reply : Reply RawStream → Reply Opened
open_reply (failed e) = failed e
open_reply (answered s) = force_first s.chunks s.failure

-- A provider of streams, which like a provider of answers may depend on the calls before.
abbrev pub Streams : Type 0
Streams = List Call → Call → Reply RawStream

-- `open_stream_with_fallback` of app/llm_call.py: the loop is that of `complete_with_fallback`.
unfoldable pub open_stream_with_fallback :
    Streams → List Candidate → List Msg → Exec (Candidate × Opened)
open_stream_with_fallback streams candidates messages =
    complete_with_fallback (λ before call. open_reply (streams before call)) candidates messages

-- The status block, as app/chat.py's `pii_status` shapes it.
pub record Status : Type 0 where
  pub pii_detected : Bool
  pub pii_check : PiiStatus
  pub routed_to : Text
  pub effective_model : Text
  pub anonymized : Bool
  pub pii_mode : Text

-- The server-sent events, with the conversation id where they carry one.
pub data Event : Type 0 where
  sse_status : Status → Event
  sse_chunk : Chunk → Option Text → Event
  sse_content : Text → Option Text → Event
  sse_error : Text → Option Text → Event
  sse_final : Option Text → Text → Event
  sse_done : Event

-- The events sent, and how many more the client stays for; `none` is a client that stays.
pub record Wire : Type 0 where
  pub events : List Event
  pub stays : Option ℕ

-- A `yield`, and whether the generator goes on: where the client has left, `GeneratorExit` is raised.
unfoldable pub yield_event : Event → Wire → Bool × Wire
yield_event e w = elim w.stays [
  | none ↦ (true, record { events = w.events ++ e ∷ []; stays = none })
  | some zero ↦ (false, record { events = w.events ++ e ∷ []; stays = some zero })
  | some (suc n) ↦ (true, record { events = w.events ++ e ∷ []; stays = some n })
]

-- `_delta_content`, with the test for content that is not empty.
abbrev pub delta_content : Chunk → Text
delta_content c = or_empty c.content

-- An event for text that is not empty.
unfoldable pub yield_text : Text → Option Text → Wire → Bool × Wire
unfolding yield_event
yield_text [] cid w = (true, w)
yield_text (c ∷ s) cid w = yield_event (sse_content (c ∷ s) cid) w

-- The state of the `try` block: whether it goes on, the buffer of the de-anonymiser, the chunks so far.
pub record Pumped : Type 0 where
  pub goes_on : Bool
  pub deanon : Option StreamDeanonymizer
  pub collected : List Chunk
  pub wire : Wire

abbrev feed_some : StreamDeanonymizer → Text → Text × StreamDeanonymizer
feed_some d [] = ([], d)
feed_some d (c ∷ s) = feed d (c ∷ s)

-- `collected.append(chunk)` and `_emit(chunk)`
unfoldable pub emit : Option Text → Pumped → Chunk → Pumped
unfolding yield_text yield_event
emit cid s chunk = elim s.deanon [
  | none ↦
      let (goes_on, wire) = yield_event (sse_chunk chunk cid) s.wire in
      record {
        goes_on = goes_on;
        deanon = none;
        collected = s.collected ++ chunk ∷ [];
        wire = wire;
      }
  | some d ↦
      let (safe, d') = feed_some d (delta_content chunk) in
      let (goes_on, wire) = yield_text safe cid s.wire in
      record {
        goes_on = goes_on;
        deanon = some d';
        collected = s.collected ++ chunk ∷ [];
        wire = wire;
      }
]

-- The loop over the chunks, which ends where the client has left.
unfoldable pub pump : Option Text → Pumped → List Chunk → Pumped
unfolding emit
pump cid s [] = s
pump cid s (c ∷ cs) =
    let t = emit cid s c in let rest = pump cid t cs in if t.goes_on then rest else t

abbrev pub all_chunks : Opened → List Chunk
all_chunks o = elim o.first [ none ↦ o.rest | some c ↦ c ∷ o.rest ]

-- `litellm.stream_chunk_builder`: the content and the token counts.
pub record Built : Type 0 where
  pub content : Option Text
  pub prompt_tokens : ℕ
  pub completion_tokens : ℕ

abbrev with_content : Text → ℕ → ℕ → Option Completion
with_content [] m n = none
with_content (c ∷ s) m n =
    some (record { content = c ∷ s; prompt_tokens = m; completion_tokens = n })

abbrev of_built : Option Built → Option Completion
of_built none = none
of_built (some b) = with_content (or_empty b.content) b.prompt_tokens b.completion_tokens

module _ (build : List Chunk → List Msg → Option Built) where
  unfoldable pub rebuild_stream_response : List Chunk → List Msg → Option Completion
  rebuild_stream_response [] llm_input = none
  rebuild_stream_response (c ∷ cs) llm_input = of_built (build (c ∷ cs) llm_input)

  -- `persist_stream_turn` of app/chat.py, whose write block is that of the turn that is not streamed.
  unfoldable pub persist_stream_turn :
      (Text → Text) → TurnEnd → List Chunk → List Msg → Db → Option Text × Db
  persist_stream_turn next_id t chunks llm_input db =
      elim (rebuild_stream_response chunks llm_input) [
        | none ↦ (none, db)
        | some c ↦ let (cid, db') = persist_turn next_id t c db in (some cid, db')
      ]

-- `_PROVIDERS_UNAVAILABLE_MSG`, `_BAD_REQUEST_MSG` and `_PROVIDER_ERROR_MSG`
abbrev pub providers_unavailable_msg : Text
providers_unavailable_msg = codes "Kein Modell-Provider verfügbar. Bitte später erneut versuchen."

abbrev pub bad_request_msg : Text
bad_request_msg =
    codes "Anfrage konnte nicht verarbeitet werden (z. B. Kontextlänge überschritten)."

abbrev pub provider_error_msg : Text
provider_error_msg = codes "Modell-Provider-Fehler."

-- The message of the handlers of the opening; `none` is an exception that none of them catches.
unfoldable pub open_error : (Permanent → Bool) → Exc → Option Text
open_error is_api_error providers_unavailable = some providers_unavailable_msg
open_error is_api_error (provider_error bad_request) = some bad_request_msg
open_error is_api_error (provider_error p) =
    if is_api_error p then some provider_error_msg else none
open_error is_api_error e = none

abbrev flush_some : Option StreamDeanonymizer → Text
flush_some none = []
flush_some (some d) = (flush d).0

abbrev or_given : Option Text → Option Text → Option Text
or_given none cid = cid
or_given (some c) cid = some c

-- The last events: an error where the stream broke off, and else the final chunk and the end.
unfoldable pub close_wire : Option Failure → Option Text → Text → Wire → Wire
unfolding yield_event
close_wire (some (e, text)) cid model w = (yield_event (sse_error text cid) w).1
close_wire none cid model w =
    let (goes_on, w') = yield_event (sse_final cid model) w in
    if goes_on then (yield_event sse_done w').1 else w'

module _ (persist : List Chunk → Db → Option Text × Db) (existing_cid : Option Text)
    (model : Text) where
  -- What follows the tail of the buffer. A client that left at the tail gets nothing more, and nothing is
  -- written: that `yield` stands outside the `try`, and in its handler.
  unfoldable pub after_tail : Option Failure → List Chunk → Bool × Wire → Db → Wire × Db
  unfolding close_wire
  after_tail failure collected (goes_on, w) db =
      if goes_on
      then (
        close_wire failure (or_given (persist collected db).0 existing_cid) model w,
        (persist collected db).1,
      )
      else (w, db)

  -- What follows the loop over the chunks. Where the client left, `_persist()` and nothing else.
  unfoldable pub after_pump : Option Failure → Pumped → Db → Wire × Db
  unfolding after_tail yield_text
  after_pump failure s db =
      if s.goes_on
      then after_tail failure s.collected (yield_text (flush_some s.deanon) existing_cid s.wire) db
      else (s.wire, (persist s.collected db).1)

-- The de-anonymiser of a strict turn.
abbrev pub new_deanon : Option Anonymizer → Option StreamDeanonymizer
new_deanon none = none
new_deanon (some a) = some (start a.ph_to_value)

module _ (env : Env) (payload : ChatCompletionRequest) (upload : Option Upload) (user_id : Text)
    (streams : Streams) (build : List Chunk → List Msg → Option Built) where
  unfoldable pub stream_status : Prepared → Candidate → Status
  stream_status p (model, row) = record {
    pii_detected = p.routed.outcome.is_detected;
    pii_check = p.routed.outcome.status;
    routed_to = row.provider;
    effective_model = model;
    anonymized = p.routed.anonymized;
    pii_mode = p.mode;
  }

  -- `_persist`
  unfoldable pub persist_chunks : Prepared → Candidate → List Chunk → Db → Option Text × Db
  unfolding persist_stream_turn
  persist_chunks p c chunks db =
      persist_stream_turn build env.next_id (turn_end env payload upload user_id p c) chunks
        p.routed.prompt db

  -- The turn from the first event on; a client that left at the status gets nothing more.
  unfoldable pub send_stream : Prepared → Candidate × Opened → Option ℕ → Db → Wire × Db
  unfolding stream_status persist_chunks pump after_pump yield_event
  send_stream p (c, opened) stays db =
      let (goes_on, w) =
        yield_event (sse_status (stream_status p c)) (record { events = []; stays = stays }) in
      if goes_on
      then after_pump (persist_chunks p c) p.existing_cid c.0 opened.failure
          (pump p.existing_cid
            (record {
              goes_on = true;
              deanon = new_deanon p.routed.anonymizer;
              collected = [];
              wire = w;
            })
            (all_chunks opened))
          db
      else (w, db)

  -- What follows the opening.
  unfoldable pub streamed :
      Prepared → Option ℕ → Outcome (Candidate × Opened) × World → Outcome (List Event) × World
  unfolding send_stream open_error
  streamed p stays (ok a, w) =
      let (wire, db) = send_stream p a stays w.db in (ok wire.events, record w { db = db })
  streamed p stays (raised e, w) = elim (open_error env.is_api_error e) [
    | none ↦ (raised e, w)
    | some text ↦ (ok (sse_error text p.existing_cid ∷ []), w)
  ]

  -- `_stream_turn`, for a client that takes so many events before it leaves, or all of them.
  unfoldable pub stream_turn : Prepared → Option ℕ → Exec (List Event)
  unfolding streamed open_stream_with_fallback
  stream_turn p stays w =
      streamed p stays (open_stream_with_fallback streams p.candidates p.routed.prompt w)
