-- ===== src/Turn/Stream/Delivered.antt =====
-- What a client that stays receives from a streamed turn.
use decyra_api.Common.{
  ◌≡◌, refl, sym, ap, ◌∙◌, Bool, true, Option, none, some, List, [], ◌∷◌, ◌++◌, map, concat,
  append_assoc, append-nil,
}
use decyra_api.Common.Text.{Text}
use decyra_api.Llm.{Candidate}
use decyra_api.Pii.Anonymizer.{Anonymizer}
use decyra_api.Pii.Placeholder.{deanonymize}
use decyra_api.Pii.Stream.{StreamDeanonymizer, start, flush, stream}
use decyra_api.Pii.Stream.Laws.{IsShort, stream-deanonymize}
use decyra_api.Store.{Db, Msg}
use decyra_api.Turn.Persist.{display}
use decyra_api.Turn.Request.{ChatCompletionRequest, Upload, Env}
use decyra_api.Turn.Run.{Prepared}
use decyra_api.Turn.Stream.{
  Chunk, Failure, Opened, Streams, Status, Event, sse_status, sse_chunk, sse_content, sse_error,
  sse_final, sse_done, Wire, yield_event, delta_content, yield_text, Pumped, feed_some, emit, pump,
  all_chunks, Built, flush_some, or_given, close_wire, after_tail, after_pump, persist_chunks,
  new_deanon, send_stream, stream_status,
}

-- The text that an event shows.
abbrev pub event_text : Event → Text
event_text (sse_chunk c cid) = delta_content c
event_text (sse_content t cid) = t
event_text (sse_status s) = []
event_text (sse_error t cid) = []
event_text (sse_final cid model) = []
event_text sse_done = []

abbrev pub wire_text : List Event → Text
wire_text es = concat (map event_text es)

-- The text of the chunks.
abbrev pub text_of_chunks : List Chunk → Text
text_of_chunks cs = concat (map delta_content cs)

abbrev pub closing : Option Failure → Option Text → Text → List Event
closing none cid model = sse_final cid model ∷ sse_done ∷ []
closing (some (e, text)) cid model = sse_error text cid ∷ []

abbrev text_event : Text → Option Text → List Event
text_event [] cid = []
text_event (c ∷ s) cid = sse_content (c ∷ s) cid ∷ []

wire_text-append : (xs ys : List Event) → wire_text (xs ++ ys) ≡ wire_text xs ++ wire_text ys
wire_text-append [] ys = refl
wire_text-append (e ∷ xs) ys =
    ap (λ t. event_text e ++ t) (wire_text-append xs ys)
    ∙ sym (append_assoc (event_text e) (wire_text xs) (wire_text ys))

wire_text-text_event : (t : Text) (cid : Option Text) → wire_text (text_event t cid) ≡ t
wire_text-text_event [] cid = refl
wire_text-text_event (c ∷ s) cid = append-nil (c ∷ s)

wire_text-closing :
    (f : Option Failure) (cid : Option Text) (model : Text) → wire_text (closing f cid model) ≡ []
wire_text-closing none cid model = refl
wire_text-closing (some (e, t)) cid model = refl

-- A wire to a client that stays.
abbrev staying : List Event → Wire
staying es = record { events = es; stays = none }

yield_text-staying :
    (t : Text) (cid : Option Text) (es : List Event)
    → yield_text t cid (staying es) ≡ (true, staying (es ++ text_event t cid))
unfolding yield_text yield_event
yield_text-staying [] cid es = ap (λ (k : List Event). (true, staying k)) (sym (append-nil es))
yield_text-staying (c ∷ s) cid es = refl

close_wire-staying :
    (f : Option Failure) (cid : Option Text) (model : Text) (es : List Event)
    → close_wire f cid model (staying es) ≡ staying (es ++ closing f cid model)
unfolding close_wire yield_event
close_wire-staying none cid model es =
    ap staying (append_assoc es (sse_final cid model ∷ []) (sse_done ∷ []))
close_wire-staying (some (e, t)) cid model es = refl

abbrev state : Option StreamDeanonymizer → List Chunk → List Event → Pumped
state d col es = record { goes_on = true; deanon = d; collected = col; wire = staying es }

-- The events of the loop under a de-anonymiser, and its buffer at the end.
sent : Option Text → StreamDeanonymizer → List Chunk → List Event × StreamDeanonymizer
sent cid d [] = ([], d)
sent cid d (c ∷ cs) =
    let (out, d') = feed_some d (delta_content c) in
    let (es, d'') = sent cid d' cs in (text_event out cid ++ es, d'')

emit-strict :
    (cid : Option Text) (d : StreamDeanonymizer) (col : List Chunk) (es : List Event) (c : Chunk)
    → emit cid (state (some d) col es) c
      ≡ state
          (some (feed_some d (delta_content c)).1)
          (col ++ c ∷ [])
          (es ++ text_event (feed_some d (delta_content c)).0 cid)
unfolding emit
emit-strict cid d col es c =
    ap
      (λ (r : Bool × Wire). record {
        goes_on = r.0;
        deanon = some (feed_some d (delta_content c)).1;
        collected = col ++ c ∷ [];
        wire = r.1;
      })
      (yield_text-staying (feed_some d (delta_content c)).0 cid es)

emit-plain :
    (cid : Option Text) (col : List Chunk) (es : List Event) (c : Chunk)
    → emit cid (state none col es) c ≡ state none (col ++ c ∷ []) (es ++ sse_chunk c cid ∷ [])
unfolding emit yield_event
emit-plain cid col es c = refl

pump_step :
    (cid : Option Text) (s t : Pumped) (c : Chunk) (cs : List Chunk)
    → emit cid s c ≡ t
    → t.goes_on ≡ true
    → pump cid s (c ∷ cs) ≡ pump cid t cs
unfolding pump
pump_step cid s t c cs e on = rw (e, on) refl

pump-strict :
    (cid : Option Text) (d : StreamDeanonymizer) (col : List Chunk) (es : List Event)
    (cs : List Chunk)
    → pump cid (state (some d) col es) cs
      ≡ state (some (sent cid d cs).1) (col ++ cs) (es ++ (sent cid d cs).0)
unfolding pump sent
pump-strict cid d col es [] = rw (append-nil col, append-nil es) refl
pump-strict cid d col es (c ∷ cs) =
    let out = feed_some d (delta_content c) in
    pump_step cid (state (some d) col es) _ c cs (emit-strict cid d col es c) refl
    ∙ pump-strict cid out.1 (col ++ c ∷ []) (es ++ text_event out.0 cid) cs
    ∙ ap
        (λ (col' : List Chunk).
          state (some (sent cid out.1 cs).1) col'
            ((es ++ text_event out.0 cid) ++ (sent cid out.1 cs).0))
        (append_assoc col (c ∷ []) cs)
    ∙ ap (state (some (sent cid out.1 cs).1) (col ++ c ∷ cs))
        (append_assoc es (text_event out.0 cid) (sent cid out.1 cs).0)

pump-plain :
    (cid : Option Text) (col : List Chunk) (es : List Event) (cs : List Chunk)
    → pump cid (state none col es) cs ≡ state none (col ++ cs) (es ++ map (λ c. sse_chunk c cid) cs)
unfolding pump
pump-plain cid col es [] = rw (append-nil col, append-nil es) refl
pump-plain cid col es (c ∷ cs) =
    pump_step cid (state none col es) _ c cs (emit-plain cid col es c) refl
    ∙ pump-plain cid (col ++ c ∷ []) (es ++ sse_chunk c cid ∷ []) cs
    ∙ ap
        (λ (col' : List Chunk).
          state none col' ((es ++ sse_chunk c cid ∷ []) ++ map (λ c. sse_chunk c cid) cs))
        (append_assoc col (c ∷ []) cs)
    ∙ ap (state none (col ++ c ∷ cs))
        (append_assoc es (sse_chunk c cid ∷ []) (map (λ c. sse_chunk c cid) cs))

abbrev text_list : Text → List Text
text_list [] = []
text_list (x ∷ s) = (x ∷ s) ∷ []

-- The contents that are fed: those that are not empty.
contents : List Chunk → List Text
contents [] = []
contents (c ∷ cs) = text_list (delta_content c) ++ contents cs

concat-text_list : (t : Text) (ts : List Text) → concat (text_list t ++ ts) ≡ t ++ concat ts
concat-text_list [] ts = refl
concat-text_list (x ∷ s) ts = refl

concat-contents : (cs : List Chunk) → concat (contents cs) ≡ text_of_chunks cs
unfolding contents
concat-contents [] = refl
concat-contents (c ∷ cs) =
    concat-text_list (delta_content c) (contents cs)
    ∙ ap (λ r. delta_content c ++ r) (concat-contents cs)

stream_feed_some :
    (d : StreamDeanonymizer) (t : Text) (ts : List Text)
    → stream d (text_list t ++ ts) ≡ (feed_some d t).0 ++ stream (feed_some d t).1 ts
unfolding stream
stream_feed_some d [] ts = refl
stream_feed_some d (c ∷ s) ts = refl

sent-text :
    (cid : Option Text) (d : StreamDeanonymizer) (cs : List Chunk)
    → wire_text (sent cid d cs).0 ++ (flush (sent cid d cs).1).0 ≡ stream d (contents cs)
unfolding sent contents stream
sent-text cid d [] = refl
sent-text cid d (c ∷ cs) =
    let out = feed_some d (delta_content c) in
    ap (λ t. t ++ (flush (sent cid out.1 cs).1).0)
      (wire_text-append (text_event out.0 cid) (sent cid out.1 cs).0
        ∙ ap (λ t. t ++ wire_text (sent cid out.1 cs).0) (wire_text-text_event out.0 cid))
    ∙ append_assoc out.0 (wire_text (sent cid out.1 cs).0) (flush (sent cid out.1 cs).1).0
    ∙ ap (λ t. out.0 ++ t) (sent-text cid out.1 cs)
    ∙ sym (stream_feed_some d (delta_content c) (contents cs))

sent_plain-text :
    (cid : Option Text) (cs : List Chunk)
    → wire_text (map (λ c. sse_chunk c cid) cs) ≡ text_of_chunks cs
sent_plain-text cid [] = refl
sent_plain-text cid (c ∷ cs) = ap (λ t. delta_content c ++ t) (sent_plain-text cid cs)

-- What has gone out when the loop ends and the tail is flushed, for a client that stays.
module _ (persist : List Chunk → Db → Option Text × Db) (cid : Option Text) (model : Text)
    (failure : Option Failure) (db : Db) where
  after_pump-staying :
      (d : Option StreamDeanonymizer) (col : List Chunk) (es : List Event)
      → after_pump persist cid model failure (state d col es) db ≡ (
        staying (
            (es ++ text_event (flush_some d) cid)
            ++ closing failure (or_given (persist col db).0 cid) model),
        (persist col db).1,
      )
  unfolding after_pump after_tail
  after_pump-staying d col es =
      ap (λ (r : Bool × Wire). after_tail persist cid model failure col r db)
        (yield_text-staying (flush_some d) cid es)
      ∙ ap (λ (k : Wire). (k, (persist col db).1))
          (close_wire-staying failure (or_given (persist col db).0 cid) model
            (es ++ text_event (flush_some d) cid))

-- The chunks' text as the client is meant to see it, what is written, and how the events end.
pub record Delivered (shown : Text) (written : Option Text × Db) (cid : Option Text) (model : Text)
    (failure : Option Failure) (r : Wire × Db) : Type 0 where
  pub front : List Event
  pub split : r.0.events ≡ front ++ closing failure (or_given written.0 cid) model
  pub text : wire_text r.0.events ≡ shown
  pub db_same : r.1 ≡ written.1

-- The pieces on the wire put together: the status, the loop's events, the tail and the end.
pieces :
    (status : Status) (es tail end : List Event)
    → wire_text end ≡ []
    → wire_text (((sse_status status ∷ es) ++ tail) ++ end) ≡ wire_text es ++ wire_text tail
pieces status es tail end e =
    wire_text-append ((sse_status status ∷ es) ++ tail) end
    ∙ ap (λ t. wire_text ((sse_status status ∷ es) ++ tail) ++ t) e
    ∙ append-nil (wire_text ((sse_status status ∷ es) ++ tail))
    ∙ wire_text-append es tail

module _ (persist : List Chunk → Db → Option Text × Db) (cid : Option Text) (model : Text)
    (failure : Option Failure) (db : Db) (status : Status) (cs : List Chunk) where
  plain-Delivered : Delivered (text_of_chunks cs) (persist cs db) cid model failure (
      after_pump persist cid model failure
        (pump cid (state none [] (sse_status status ∷ [])) cs)
        db)
  plain-Delivered =
      let es = map (λ c. sse_chunk c cid) cs in
      let e =
        ap (λ (s : Pumped). after_pump persist cid model failure s db)
          (pump-plain cid [] (sse_status status ∷ []) cs)
        ∙ after_pump-staying persist cid model failure db none cs (sse_status status ∷ es) in
      rw e (record {
        front = (sse_status status ∷ es) ++ [];
        split = refl;
        text =
            pieces status es [] _ (wire_text-closing failure (or_given (persist cs db).0 cid) model)
            ∙ append-nil (wire_text es)
            ∙ sent_plain-text cid cs;
        db_same = refl;
      })

  strict-Delivered :
      (d : StreamDeanonymizer)
      → Delivered (stream d (contents cs)) (persist cs db) cid model failure (
          after_pump persist cid model failure
            (pump cid (state (some d) [] (sse_status status ∷ [])) cs)
            db)
  strict-Delivered d =
      let es = (sent cid d cs).0 in
      let tail = (flush (sent cid d cs).1).0 in
      let e =
        ap (λ (s : Pumped). after_pump persist cid model failure s db)
          (pump-strict cid d [] (sse_status status ∷ []) cs)
        ∙ after_pump-staying persist cid model failure db (some (sent cid d cs).1) cs
            (sse_status status ∷ es) in
      rw e (record {
        front = (sse_status status ∷ es) ++ text_event tail cid;
        split = refl;
        text =
            pieces status es (text_event tail cid) _
              (wire_text-closing failure (or_given (persist cs db).0 cid) model)
            ∙ ap (λ t. wire_text es ++ t) (wire_text-text_event tail cid)
            ∙ sent-text cid d cs;
        db_same = refl;
      })

  any-Delivered :
      (o : Option Anonymizer)
      → ((a : Anonymizer) → o ≡ some a → IsShort (text_of_chunks cs))
      → Delivered (display o (text_of_chunks cs)) (persist cs db) cid model failure (
          after_pump persist cid model failure
            (pump cid (state (new_deanon o) [] (sse_status status ∷ [])) cs)
            db)
  unfolding display
  any-Delivered none short = plain-Delivered
  any-Delivered (some a) short =
      let whole =
        stream-deanonymize (start a.ph_to_value) (contents cs)
          (rw (concat-contents cs) (short a refl))
        ∙ ap (deanonymize a.ph_to_value) (concat-contents cs) in
      rw (sym whole) (strict-Delivered (start a.ph_to_value))

module _ (env : Env) (payload : ChatCompletionRequest) (upload : Option Upload) (user_id : Text)
    (streams : Streams) (build : List Chunk → List Msg → Option Built) where
  -- To a client that stays, a stream that has opened shows the text of its chunks, in strict mode with the
  -- placeholders replaced as in the whole text (where no match of the placeholder pattern in it is longer
  -- than `max_ph`). The turn of all its chunks is then written, and the events end with the final chunk
  -- and the end mark, or with an error where the provider broke off.
  pub send_stream-Delivered :
      (p : Prepared) (c : Candidate) (opened : Opened) (db : Db)
      → ((a : Anonymizer)
          → p.routed.anonymizer ≡ some a
          → IsShort (text_of_chunks (all_chunks opened)))
      → Delivered
          (display p.routed.anonymizer (text_of_chunks (all_chunks opened)))
          (persist_chunks env payload upload user_id streams build p c (all_chunks opened) db)
          p.existing_cid
          c.0
          opened.failure
          (send_stream env payload upload user_id streams build p (c, opened) none db)
  unfolding send_stream yield_event
  send_stream-Delivered p c opened db short =
      any-Delivered (persist_chunks env payload upload user_id streams build p c) p.existing_cid c.0
        opened.failure db (stream_status env payload upload user_id streams build p c)
        (all_chunks opened) p.routed.anonymizer short
