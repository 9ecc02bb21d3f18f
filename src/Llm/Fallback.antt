-- ===== src/Llm/Fallback.antt =====
-- Which candidates a call reaches, and in which order.
use decyra_api.Common.{
  ◌+◌, ◌≡◌, refl, sym, ap, ◌∙◌, ◌⊎◌, inl, inr, Bool, List, [], ◌∷◌, ◌++◌, map, append_assoc,
  append-nil, arith, All, All-append, length, length-append,
}
use decyra_api.Store.{Msg}
use decyra_api.World.{
  World, Call, permanent, transient, unexpected, Outcome, ok, raised, providers_unavailable,
  provider_error, http, embedding_error, check_unavailable, unhandled, Exec,
}
use decyra_api.World.Keeps.{Keeps}
use decyra_api.Llm.{Candidate, Reply, answered, failed, settle, send, complete_with_fallback}

-- The call that a candidate gets.
abbrev pub call_of : List Msg → Candidate → Call
call_of messages c = record { model = c.0; row = c.1; messages = messages }

-- What a candidate's handlers do to the calls: nothing, or what the rest of the loop does.
module _ {A : Type 0} (Q : Call → Type 0) where
  settle-Keeps :
      (c : Candidate) (more : Bool) (r : Reply A) (next : Exec (Candidate × A))
      → Keeps (λ w. All Q w.calls) next
      → Keeps (λ w. All Q w.calls) (settle c more r next)
  unfolding settle
  settle-Keeps c more (answered a) next k = record { at = λ w h. h }
  settle-Keeps c more (failed (permanent p)) next k = record { at = λ w h. h }
  settle-Keeps c more (failed transient) next k = record { at = λ w h. k.at _ h }
  settle-Keeps c more (failed unexpected) next k = record { at = λ w h. k.at _ h }

-- A failure after which the loop goes on.
abbrev pub IsOutage : {A : Type 0} → Reply A → Type 0
IsOutage r = (r ≡ failed transient) ⊎ (r ≡ failed unexpected)

module _ {A : Type 0} (provider : List Call → Call → Reply A) (messages : List Msg) where
  -- One after the other, each candidate's call fails so that the loop goes on.
  abbrev pub AllOut : List Call → List Candidate → Type 0
  AllOut before [] = Unit
  AllOut before (c ∷ cs) =
      IsOutage (provider before (call_of messages c))
      × AllOut (before ++ call_of messages c ∷ []) cs

  -- What a loop adds to the calls and to the log, where it gives up and where it stops with a reply.
  pub record GaveUp (cs : List Candidate) (w w' : World) : Type 0 where
    pub outages : AllOut w.calls cs
    pub called : w'.calls ≡ w.calls ++ map (call_of messages) cs
    pub logged : length w'.errors ≡ length w.errors + length cs

  pub record StoppedAt (cs : List Candidate) (w w' : World) (r : Reply A) : Type 0 where
    pub tried : List Candidate
    pub last : Candidate
    pub untried : List Candidate
    pub split : cs ≡ tried ++ last ∷ untried
    pub called : w'.calls ≡ w.calls ++ map (call_of messages) (tried ++ last ∷ [])
    pub outages : AllOut w.calls tried
    pub replied : provider (w.calls ++ map (call_of messages) tried) (call_of messages last) ≡ r

  abbrev pub Ended : List Candidate → World → Outcome (Candidate × A) × World → Type 0
  Ended cs w (raised providers_unavailable, w') = GaveUp cs w w'
  Ended cs w (raised (provider_error p), w') = StoppedAt cs w w' (failed (permanent p))
  Ended cs w (ok (c, a), w') = (s : StoppedAt cs w w' (answered a)) × (s.last ≡ c)
  Ended cs w (raised e, w') = ⊥

  AllOut-along :
      (cs : List Candidate) (before after : List Call)
      → after ≡ before
      → AllOut after cs
      → AllOut before cs
  AllOut-along cs before after e h = rw (sym e) h

grow : (c : Call) (ws xs ys zs : List Call) → xs ≡ ws ++ c ∷ [] → zs ≡ xs ++ ys → zs ≡ ws ++ c ∷ ys
grow c ws xs ys zs p q = cc (append_assoc ws (c ∷ []) ys)

module _ {A : Type 0} (provider : List Call → Call → Reply A) (messages : List Msg) where
  -- What holds of the call of every candidate holds of every call that goes out.
  pub complete_with_fallback-Keeps :
      (Q : Call → Type 0) (cs : List Candidate)
      → All (λ c. Q (call_of messages c)) cs
      → Keeps (λ w. All Q w.calls) (complete_with_fallback provider cs messages)
  unfolding complete_with_fallback
  complete_with_fallback-Keeps Q [] _ = record { at = λ w h. h }
  complete_with_fallback-Keeps Q (c ∷ cs) (q, qs) = record {
    at = λ w h.
        (settle-Keeps Q c _ _ _ (complete_with_fallback-Keeps Q cs qs)).at (send c messages w)
          (All-append Q w.calls _ h (q, tt));
  }

  StoppedAt-cons :
      (c : Candidate) (cs : List Candidate) (w v w' : World) (r : Reply A)
      → v.calls ≡ w.calls ++ call_of messages c ∷ []
      → IsOutage (provider w.calls (call_of messages c))
      → (e : StoppedAt provider messages cs v w' r)
      → (s : StoppedAt provider messages (c ∷ cs) w w' r) × (s.last ≡ e.last)
  StoppedAt-cons c cs w v w' r called out e = (
    record {
      tried = c ∷ e.tried;
      last = e.last;
      untried = e.untried;
      split = ap (λ r. c ∷ r) e.split;
      called = grow (call_of messages c) w.calls v.calls _ w'.calls called e.called;
      outages = (out, AllOut-along provider messages e.tried _ v.calls called e.outages);
      replied =
          ap (λ calls. provider calls (call_of messages e.last))
            (sym (grow (call_of messages c) w.calls v.calls _ _ called refl))
          ∙ e.replied;
    },
    refl,
  )

  Ended-cons :
      (c : Candidate) (cs : List Candidate) (w v : World) (out : Outcome (Candidate × A) × World)
      → v.calls ≡ w.calls ++ call_of messages c ∷ []
      → length v.errors ≡ length w.errors + 1
      → IsOutage (provider w.calls (call_of messages c))
      → Ended provider messages cs v out
      → Ended provider messages (c ∷ cs) w out
  Ended-cons c cs w v (raised providers_unavailable, w') called logged o e = record {
    outages = (o, AllOut-along provider messages cs _ v.calls called e.outages);
    called = grow (call_of messages c) w.calls v.calls _ w'.calls called e.called;
    logged = omega (arith, logged, e.logged);
  }
  Ended-cons c cs w v (raised (provider_error p), w') called logged o e =
      (StoppedAt-cons c cs w v w' _ called o e).0
  Ended-cons c cs w v (ok (d, a), w') called logged o (e, same) =
      let (s, kept) = StoppedAt-cons c cs w v w' _ called o e in (s, kept ∙ same)
  Ended-cons c cs w v (raised (http n), w') called logged o e = elim e [ ]
  Ended-cons c cs w v (raised embedding_error, w') called logged o e = elim e [ ]
  Ended-cons c cs w v (raised check_unavailable, w') called logged o e = elim e [ ]
  Ended-cons c cs w v (raised unhandled, w') called logged o e = elim e [ ]

  stopped_first :
      (c : Candidate) (cs : List Candidate) (r : Reply A) (w w' : World)
      → provider w.calls (call_of messages c) ≡ r
      → w'.calls ≡ w.calls ++ call_of messages c ∷ []
      → (s : StoppedAt provider messages (c ∷ cs) w w' r) × (s.last ≡ c)
  stopped_first c cs r w w' e called = (
    record {
      tried = [];
      last = c;
      untried = cs;
      split = refl;
      called = called;
      outages = tt;
      replied = ap (λ calls. provider calls (call_of messages c)) (append-nil w.calls) ∙ e;
    },
    refl,
  )

  settle-Ended :
      (c : Candidate) (cs : List Candidate) (more : Bool) (r : Reply A) (w : World)
      (next : Exec (Candidate × A))
      → provider w.calls (call_of messages c) ≡ r
      → ((v : World) → Ended provider messages cs v (next v))
      → Ended provider messages (c ∷ cs) w (settle c more r next (send c messages w))
  unfolding settle send
  settle-Ended c cs more (answered a) w next e h = stopped_first c cs _ w _ e refl
  settle-Ended c cs more (failed (permanent p)) w next e h = (stopped_first c cs _ w _ e refl).0
  settle-Ended c cs more (failed transient) w next e h =
      Ended-cons c cs w _ _ refl (length-append w.errors _) (inl e) (h _)
  settle-Ended c cs more (failed unexpected) w next e h =
      Ended-cons c cs w _ _ refl (length-append w.errors _) (inr e) (h _)

  -- The loop calls the candidates in their order. All calls before the last one failed, and not for good;
  -- the last one was answered, and the result is that candidate with that answer, or it failed for good, and
  -- that error is raised; no candidate after it is called. The loop reports that the providers are
  -- unavailable only when the call of every candidate failed, not for good, and was logged.
  pub complete_with_fallback-Ended :
      (cs : List Candidate) (w : World)
      → Ended provider messages cs w (complete_with_fallback provider cs messages w)
  unfolding complete_with_fallback
  complete_with_fallback-Ended [] w = record {
    outages = tt;
    called = sym (append-nil w.calls);
    logged = omega arith;
  }
  complete_with_fallback-Ended (c ∷ cs) w =
      settle-Ended c cs _ _ w (complete_with_fallback provider cs messages) refl
        (complete_with_fallback-Ended cs)
