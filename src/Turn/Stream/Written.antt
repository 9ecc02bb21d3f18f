-- ===== src/Turn/Stream/Written.antt =====
-- What a streamed turn leaves in the database, whenever the client leaves.
use decyra_api.Common.{
  ℕ, ◌≡◌, refl, sym, ap, ◌∙◌, ◌⊎◌, inl, inr, Bool, true, false, Option, none, some, List, [], ◌∷◌,
  ◌++◌, append_assoc, append-nil, if◌then◌else◌, Bool-cases, Option-cases,
}
use decyra_api.Common.Text.{Text}
use decyra_api.Llm.{Candidate}
use decyra_api.Llm.Answers.{GivenBy, complete_with_fallback-SameDb, complete_with_fallback-Given}
use decyra_api.Store.{Db, Msg}
use decyra_api.Turn.Audited.Writes.{persist_turn-audit_events}
use decyra_api.Turn.Persist.{Completion, TurnEnd, persist_turn, audit_row}
use decyra_api.Turn.Request.{ChatCompletionRequest, Upload, Env}
use decyra_api.Turn.Run.{Prepared, turn_end}
use decyra_api.Turn.Stream.{
  Chunk, Failure, Opened, Streams, Wire, Pumped, emit, pump, all_chunks, Built,
  rebuild_stream_response, persist_stream_turn, after_tail, after_pump, persist_chunks, new_deanon,
  send_stream, streamed, stream_turn, open_stream_with_fallback, open_reply, open_error,
}
use decyra_api.World.{World, Call, Outcome, ok, raised}
use decyra_api.World.Keeps.{Ensures}

emit-collected :
    (cid : Option Text) (s : Pumped) (c : Chunk) → (emit cid s c).collected ≡ s.collected ++ c ∷ []
unfolding emit
emit-collected cid s c = elim (Option-cases s.deanon) [
  | inl e ↦ rw (e, emit) refl
  | inr (d, e) ↦ rw (e, emit) refl
]

-- The first of the chunks, as many as the client stayed for.
record Prefix (before cs after : List Chunk) : Type 0 where
  pub taken : List Chunk
  pub rest : List Chunk
  pub split : cs ≡ taken ++ rest
  pub collected : after ≡ before ++ taken

pump-stopped :
    (cid : Option Text) (s : Pumped) (c : Chunk) (cs : List Chunk)
    → (emit cid s c).goes_on ≡ false
    → pump cid s (c ∷ cs) ≡ emit cid s c
unfolding pump
pump-stopped cid s c cs e = rw e refl

pump-continued :
    (cid : Option Text) (s : Pumped) (c : Chunk) (cs : List Chunk)
    → (emit cid s c).goes_on ≡ true
    → pump cid s (c ∷ cs) ≡ pump cid (emit cid s c) cs
unfolding pump
pump-continued cid s c cs e = rw e refl

Prefix-along :
    {before cs : List Chunk} {s t : Pumped}
    → s ≡ t
    → Prefix before cs t.collected
    → Prefix before cs s.collected
Prefix-along e h = rw e h

pump-Prefix :
    (cid : Option Text) (s : Pumped) (cs : List Chunk)
    → Prefix s.collected cs (pump cid s cs).collected
unfolding pump
pump-Prefix cid s [] = record {
  taken = [];
  rest = [];
  split = refl;
  collected = sym (append-nil s.collected);
}
pump-Prefix cid s (c ∷ cs) = elim (Bool-cases (emit cid s c).goes_on) [
  | inr e ↦
      Prefix-along {s = pump cid s (c ∷ cs)} {t = emit cid s c} (pump-stopped cid s c cs e)
        (record { taken = c ∷ []; rest = cs; split = refl; collected = emit-collected cid s c })
  | inl e ↦
      let later = pump-Prefix cid (emit cid s c) cs in
      Prefix-along {s = pump cid s (c ∷ cs)} {t = pump cid (emit cid s c) cs}
        (pump-continued cid s c cs e)
        (record {
          taken = c ∷ later.taken;
          rest = later.rest;
          split = ap (λ r. c ∷ r) later.split;
          collected =
              later.collected
              ∙ ap (λ r. r ++ later.taken) (emit-collected cid s c)
              ∙ append_assoc s.collected (c ∷ []) later.taken;
        })
]

-- Nothing is written, or the turn of the first chunks.
abbrev WritesPrefix : (List Chunk → Db → Option Text × Db) → List Chunk → Db → Db → Type 0
WritesPrefix persist cs db db' =
    (db' ≡ db)
    ⊎ ((taken : List Chunk) × (rest : List Chunk) × (cs ≡ taken ++ rest)
        × (db' ≡ (persist taken db).1))

module _ (persist : List Chunk → Db → Option Text × Db) (cid : Option Text) (model : Text)
    (failure : Option Failure) (db : Db) where
  after_tail-cases :
      (col : List Chunk) (y : Bool × Wire)
      → ((after_tail persist cid model failure col y db).1 ≡ db)
        ⊎ ((after_tail persist cid model failure col y db).1 ≡ (persist col db).1)
  unfolding after_tail
  after_tail-cases col (true, w) = inr refl
  after_tail-cases col (false, w) = inl refl

  after_pump-cases :
      (s : Pumped)
      → ((after_pump persist cid model failure s db).1 ≡ db)
        ⊎ ((after_pump persist cid model failure s db).1 ≡ (persist s.collected db).1)
  unfolding after_pump
  after_pump-cases s = elim (Bool-cases s.goes_on) [
    | inl e ↦ rw (e, after_pump) (after_tail-cases s.collected _)
    | inr e ↦ rw (e, after_pump) (inr refl)
  ]

module _ (env : Env) (payload : ChatCompletionRequest) (upload : Option Upload) (user_id : Text)
    (streams : Streams) (build : List Chunk → List Msg → Option Built) where
  yielded-Writes :
      (p : Prepared) (c : Candidate) (opened : Opened) (db : Db) (first : Bool × Wire)
      → WritesPrefix
          (persist_chunks env payload upload user_id streams build p c)
          (all_chunks opened)
          db
          (if first.0
            then after_pump
                (persist_chunks env payload upload user_id streams build p c)
                p.existing_cid
                c.0
                opened.failure
                (pump p.existing_cid
                  (record {
                    goes_on = true;
                    deanon = new_deanon p.routed.anonymizer;
                    collected = [];
                    wire = first.1;
                  })
                  (all_chunks opened))
                db
            else (first.1, db)).1
  yielded-Writes p c opened db (false, w) = inl refl
  yielded-Writes p c opened db (true, w) =
      let persist = persist_chunks env payload upload user_id streams build p c in
      let s : Pumped = record {
        goes_on = true;
        deanon = new_deanon p.routed.anonymizer;
        collected = [];
        wire = w;
      } in
      let x = pump-Prefix p.existing_cid s (all_chunks opened) in
      elim (after_pump-cases persist p.existing_cid c.0 opened.failure db
        (pump p.existing_cid s (all_chunks opened))) [
          | inl e ↦ inl e
          | inr e ↦ inr (x.taken, x.rest, x.split, e ∙ ap (λ k. (persist k db).1) x.collected)
        ]

  send_stream-Writes :
      (p : Prepared) (c : Candidate) (opened : Opened) (stays : Option ℕ) (db : Db)
      → WritesPrefix
          (persist_chunks env payload upload user_id streams build p c)
          (all_chunks opened)
          db
          (send_stream env payload upload user_id streams build p (c, opened) stays db).1
  unfolding send_stream
  send_stream-Writes p c opened stays db = yielded-Writes p c opened db _

-- The turn of the first chunks, written whole: its messages and its audit event.
pub record TurnWritten (env : Env) (build : List Chunk → List Msg → Option Built) (t : TurnEnd)
    (prompt : List Msg) (chunks : List Chunk) (db db' : Db) : Type 0 where
  pub taken : List Chunk
  pub rest : List Chunk
  pub completion : Completion
  pub split : chunks ≡ taken ++ rest
  pub rebuilt : rebuild_stream_response build taken prompt ≡ some completion
  pub written : db' ≡ (persist_turn env.next_id t completion db).1
  pub audited : db'.audit_events ≡ db.audit_events ++ audit_row env.next_id t completion ∷ []

module _ (build : List Chunk → List Msg → Option Built) (next_id : Text → Text) (t : TurnEnd)
    (chunks : List Chunk) (prompt : List Msg) (db : Db) where
  persist_nothing :
      rebuild_stream_response build chunks prompt ≡ none
      → (persist_stream_turn build next_id t chunks prompt db).1 ≡ db
  unfolding persist_stream_turn
  persist_nothing e = rw (e, persist_stream_turn) refl

  persist_rebuilt :
      (x : Completion)
      → rebuild_stream_response build chunks prompt ≡ some x
      → (persist_stream_turn build next_id t chunks prompt db).1 ≡ (persist_turn next_id t x db).1
  unfolding persist_stream_turn
  persist_rebuilt x e = rw (e, persist_stream_turn) refl

-- The database is as it was, or has the turn of the first chunks that some provider sent.
abbrev pub AllOrNothing :
    Env
    → ChatCompletionRequest
    → Option Upload
    → Text
    → Streams
    → (List Chunk → List Msg → Option Built)
    → Prepared
    → World
    → World
    → Type 0
AllOrNothing env payload upload user_id streams build p w w' =
    (w'.db ≡ w.db)
    ⊎ ((c : Candidate) × (opened : Opened) × GivenBy
          (λ before call. open_reply (streams before call)) opened
        × TurnWritten env build (turn_end env payload upload user_id p c) p.routed.prompt
            (all_chunks opened) w.db w'.db)

module _ (env : Env) (payload : ChatCompletionRequest) (upload : Option Upload) (user_id : Text)
    (streams : Streams) (build : List Chunk → List Msg → Option Built) (p : Prepared) where
  prefix-TurnWritten :
      (c : Candidate) (chunks taken rest : List Chunk) (db db' : Db)
      → chunks ≡ taken ++ rest
      → db' ≡ (persist_chunks env payload upload user_id streams build p c taken db).1
      → (db' ≡ db)
        ⊎ TurnWritten env build
            (turn_end env payload upload user_id p c)
            p.routed.prompt
            chunks
            db
            db'
  unfolding persist_chunks
  prefix-TurnWritten c chunks taken rest db db' split e =
      let t = turn_end env payload upload user_id p c in
      elim (Option-cases (rebuild_stream_response build taken p.routed.prompt)) [
        | inl none_built ↦
            inl (e ∙ persist_nothing build env.next_id t taken p.routed.prompt db none_built)
        | inr (x, built) ↦
            let written =
              e ∙ persist_rebuilt build env.next_id t taken p.routed.prompt db x built in
            inr (record {
              taken = taken;
              rest = rest;
              completion = x;
              split = split;
              rebuilt = built;
              written = written;
              audited =
                  ap (λ (d : Db). d.audit_events) written
                  ∙ persist_turn-audit_events env.next_id t x db;
            })
      ]

  send_stream-TurnWritten :
      (c : Candidate) (opened : Opened) (stays : Option ℕ) (db : Db)
      → ((send_stream env payload upload user_id streams build p (c, opened) stays db).1 ≡ db)
        ⊎ TurnWritten env build
            (turn_end env payload upload user_id p c)
            p.routed.prompt
            (all_chunks opened)
            db
            (send_stream env payload upload user_id streams build p (c, opened) stays db).1
  send_stream-TurnWritten c opened stays db =
      elim (send_stream-Writes env payload upload user_id streams build p c opened stays db) [
        | inl e ↦ inl e
        | inr (taken, rest, split, e) ↦
            prefix-TurnWritten c (all_chunks opened) taken rest db _ split e
      ]

  streamed-AllOrNothing :
      (stays : Option ℕ) (w : World) (r : Outcome (Candidate × Opened)) (v : World)
      → Ensures
          (λ (x : Candidate × Opened).
            GivenBy (λ before call. open_reply (streams before call)) x.1)
          r
      → v.db ≡ w.db
      → AllOrNothing env payload upload user_id streams build p w
          (streamed env payload upload user_id streams build p stays (r, v)).1
  unfolding streamed
  streamed-AllOrNothing stays w (ok (c, opened)) v given same =
      elim (send_stream-TurnWritten c opened stays v.db) [
        | inl e ↦ inl (e ∙ same)
        | inr h ↦ inr (c, opened, given, rw (sym same) h)
      ]
  streamed-AllOrNothing stays w (raised e) v given same =
      elim (Option-cases (open_error env.is_api_error e)) [
        | inl q ↦ rw (q, streamed) (inl same)
        | inr (text, q) ↦ rw (q, streamed) (inl same)
      ]

  -- Whenever the client leaves and however the stream ends, a streamed turn is written whole or not at all:
  -- the database is as it was, or it has the turn that is rebuilt from the first of the chunks that a
  -- provider sent, with its audit event.
  pub stream_turn-AllOrNothing :
      (stays : Option ℕ) (w : World)
      → AllOrNothing env payload upload user_id streams build p w
          (stream_turn env payload upload user_id streams build p stays w).1
  unfolding stream_turn open_stream_with_fallback
  stream_turn-AllOrNothing stays w =
      let provider = λ (before : List Call) (call : Call). open_reply (streams before call) in
      streamed-AllOrNothing stays w _ _
        ((complete_with_fallback-Given provider p.routed.prompt p.candidates).at w)
        ((complete_with_fallback-SameDb w.db provider p.routed.prompt p.candidates).at w refl)
