-- ===== src/Turn/Analysis/Protection.antt =====
-- Which prompts for code may leave the house.
use decyra_api.Common.{
  ℕ, ◌≡◌, refl, sym, ◌⊎◌, inl, inr, Bool, true, Option, none, some, List, All, All-map,
  Option-cases,
}
use decyra_api.Common.Text.{Text}
use decyra_api.Analysis.Dialogue.{IsDialogue, Serves, generate_and_run-Keeps}
use decyra_api.Analysis.Loop.{Sandbox}
use decyra_api.Documents.{Bytes, sanitize_filename}
use decyra_api.Llm.{Candidate, build_candidates}
use decyra_api.Llm.Candidates.{build_candidates-sovereign}
use decyra_api.Llm.Fallback.{call_of, complete_with_fallback-Keeps}
use decyra_api.Pii.Anonymizer.{Anonymizer}
use decyra_api.Pii.Detect.{Checker, anonymize_with}
use decyra_api.Store.{Db, Model, Msg}
use decyra_api.Turn.Analysis.{ask, complete_fn, run_codegen, finish_analysis, run_analysis}
use decyra_api.Turn.Protection.{Yields-lift, All-both, chosen_row-IsNamed}
use decyra_api.Turn.Protection.Routing.{Cleared}
use decyra_api.Turn.Protection.Routing.Ways.{Grown, grown, GrownIf, Way, route-Way, route-GrownIf}
use decyra_api.Turn.Protection.Routing.Named.{IsNamed, build_candidates-IsNamed, route-IsNamed}
use decyra_api.Turn.Request.{ChatCompletionRequest, Upload, DataSchema, Env}
use decyra_api.Turn.Route.{Sources, Routed, llm_input, user_text}
use decyra_api.Turn.Run.{Prepared, prepare_turn, route_turn}
use decyra_api.World.{World, Call, unhandled, raise, transact}
use decyra_api.World.Keeps.{
  Keeps, Keeps-pure, Keeps-raise, Keeps-bind, Keeps-catch, Keeps-then, Yields, Yields-pure,
  Yields-bind, Yields-then, Yields-bind-Yields,
}

-- What goes out is what such an anonymiser made of some messages.
abbrev pub MaskedFrom : Checker → List Msg → Type 0
MaskedFrom k ms =
    (input : List Msg) × (a : Anonymizer) × (b : Anonymizer) × Grown k a
    × (anonymize_with k a input ≡ some (ms, b))

-- What goes out asks for code to a question that was checked, and repeats codes and feedbacks only.
abbrev pub ClearedDialogue : Checker → (ℕ → Bool) → List Msg → Type 0
ClearedDialogue k is_word ms =
    (schema : DataSchema) × (input : List Msg) × Cleared k input
    × IsDialogue is_word schema (user_text input) ms

-- A call that may go out, in whichever branch of a turn: its model is the one of its row, and the row is
-- sovereign or the messages may leave the house.
abbrev pub TurnProtected : Checker → (ℕ → Bool) → Call → Type 0
TurnProtected k is_word c =
    (c.model ≡ c.row.name)
    × ((c.row.sovereign_eligible ≡ true)
        ⊎ (MaskedFrom k c.messages ⊎ (Cleared k c.messages ⊎ ClearedDialogue k is_word c.messages)))

-- Why the candidates of a turn may be asked.
abbrev pub MayAsk : Checker → List Candidate → Option Anonymizer → Text → Type 0
MayAsk k candidates anonymizer question =
    All IsNamed candidates
    × GrownIf k anonymizer
    × (All (λ (c : Candidate). c.1.sovereign_eligible ≡ true) candidates
        ⊎ (((a : Anonymizer) × (anonymizer ≡ some a))
            ⊎ ((input : List Msg) × Cleared k input × (question ≡ user_text input))))

abbrev pub Usable : Checker → Prepared → Type 0
Usable k p = MayAsk k p.candidates p.routed.anonymizer p.question

-- There is an anonymiser, and it has come about.
abbrev IsGrown : Checker → Option Anonymizer → Type 0
IsGrown k none = ⊥
IsGrown k (some a) = Grown k a

pub Keeps-transact :
    {A : Type 0} (k : Checker) (is_word : ℕ → Bool) (f : Db → A × Db)
    → Keeps (λ w. All (TurnProtected k is_word) w.calls) (transact f)
unfolding transact
Keeps-transact k is_word f = record { at = λ w h. h }

module _ (env : Env) (box : Sandbox) (schema : DataSchema) (p : Prepared) where
  abbrev Guarded : World → Type 0
  Guarded w = All (TurnProtected env.checker box.is_word) w.calls

  ask-Keeps :
      (a : Option Anonymizer) (sent : List Msg)
      → All (λ (c : Candidate). TurnProtected env.checker box.is_word (call_of sent c)) p.candidates
      → Keeps Guarded (ask env p a sent)
  unfolding ask
  ask-Keeps a sent h =
      Keeps-bind _ _
        (complete_with_fallback-Keeps env.provider sent (TurnProtected env.checker box.is_word)
          p.candidates h)
        (λ x. Keeps-pure _)

  -- Under an anonymiser, what it made of the messages goes out.
  masked-Keeps :
      (a : Anonymizer) (ms : List Msg)
      → All IsNamed p.candidates
      → Grown env.checker a
      → Keeps Guarded (complete_fn env p (some a) ms)
  unfolding complete_fn
  masked-Keeps a ms named g = elim (Option-cases (anonymize_with env.checker a ms)) [
    | inl e ↦ rw (e, complete_fn) (Keeps-raise unhandled)
    | inr ((sent, b), e) ↦
        rw (e, complete_fn)
          (ask-Keeps (some b) sent
            (All-map IsNamed _ p.candidates (λ c n. (n, inr (inl (ms, a, b, g, e)))) named))
  ]

  plain-Keeps :
      (ms : List Msg)
      → All (λ (c : Candidate). TurnProtected env.checker box.is_word (call_of ms c)) p.candidates
      → Keeps Guarded (complete_fn env p none ms)
  unfolding complete_fn
  plain-Keeps ms h = ask-Keeps none ms h

  -- The anonymiser stays: where there was one, there is one after the call.
  complete_fn-IsGrown :
      (a : Option Anonymizer) (ms : List Msg)
      → IsGrown env.checker a
      → Yields (λ answer. IsGrown env.checker answer.1) (complete_fn env p a ms)
  unfolding complete_fn ask raise
  complete_fn-IsGrown none ms h = absurd h
  complete_fn-IsGrown (some a) ms h = elim (Option-cases (anonymize_with env.checker a ms)) [
    | inl e ↦ rw (e, complete_fn) (record { at = λ w. tt })
    | inr ((sent, b), e) ↦
        rw (e, complete_fn) (Yields-bind _ _ (λ x. Yields-pure _ (grown a b ms sent h e)))
  ]

  complete_fn-GrownIf :
      (a : Option Anonymizer) (ms : List Msg)
      → GrownIf env.checker a
      → Yields (λ answer. GrownIf env.checker answer.1) (complete_fn env p a ms)
  unfolding complete_fn ask raise
  complete_fn-GrownIf none ms h = Yields-bind _ _ (λ x. Yields-pure _ tt)
  complete_fn-GrownIf (some a) ms h = elim (Option-cases (anonymize_with env.checker a ms)) [
    | inl e ↦ rw (e, complete_fn) (record { at = λ w. tt })
    | inr ((sent, b), e) ↦
        rw (e, complete_fn) (Yields-bind _ _ (λ x. Yields-pure _ (grown a b ms sent h e)))
  ]

  -- Where the plain prompt may go out, so may the masked one.
  of_either :
      (a : Option Anonymizer) (ms : List Msg)
      → All IsNamed p.candidates
      → GrownIf env.checker a
      → All (λ (c : Candidate). TurnProtected env.checker box.is_word (call_of ms c)) p.candidates
      → Keeps Guarded (complete_fn env p a ms)
  of_either none ms named g h = plain-Keeps ms h
  of_either (some a) ms named g h = masked-Keeps a ms named g

  of_some :
      (a : Option Anonymizer) (ms : List Msg)
      → All IsNamed p.candidates
      → IsGrown env.checker a
      → Keeps Guarded (complete_fn env p a ms)
  of_some none ms named h = absurd h
  of_some (some a) ms named h = masked-Keeps a ms named h

  module _ (b64encode : Bytes → Text) (max_retries : ℕ) (user_id : Text) (u : Upload) where
    loop-Keeps :
        (Q : Option Anonymizer → Type 0)
        → Q p.routed.anonymizer
        → ((a : Option Anonymizer) (ms : List Msg)
            → Q a
            → IsDialogue box.is_word schema p.question ms
            → Serves Guarded Q box u.bytes
                (sanitize_filename u.filename)
                max_retries
                schema
                p.question
                (complete_fn env p)
                a
                ms)
        → Keeps Guarded (run_codegen env box b64encode max_retries user_id p schema u)
    unfolding run_codegen
    loop-Keeps Q q serves =
        Keeps-catch _ _
          (generate_and_run-Keeps Guarded Q box u.bytes (sanitize_filename u.filename) max_retries
            schema p.question (complete_fn env p) serves p.routed.anonymizer q)
          (λ e. Keeps-raise _)

    -- Where every plain prompt of the loop may go out.
    open-Keeps :
        All IsNamed p.candidates
        → GrownIf env.checker p.routed.anonymizer
        → ((ms : List Msg)
            → IsDialogue box.is_word schema p.question ms
            → All
                (λ (c : Candidate). TurnProtected env.checker box.is_word (call_of ms c))
                p.candidates)
        → Keeps Guarded (run_codegen env box b64encode max_retries user_id p schema u)
    open-Keeps named g may = loop-Keeps (GrownIf env.checker) g (λ a ms q d. record {
      keeps = of_either a ms named q (may ms d);
      yields = complete_fn-GrownIf a ms q;
    })

    run_codegen-Keeps :
        Usable env.checker p
        → Keeps Guarded (run_codegen env box b64encode max_retries user_id p schema u)
    run_codegen-Keeps (named, g, inl sovereign) =
        open-Keeps named g
          (λ ms d. All-both IsNamed _ _ p.candidates (λ c n h. (n, inl h)) named sovereign)
    run_codegen-Keeps (named, g, inr (inl (a, e))) =
        loop-Keeps (IsGrown env.checker) (is_grown p.routed.anonymizer a g e)
          (λ a ms q d. record { keeps = of_some a ms named q; yields = complete_fn-IsGrown a ms q })
      where
        is_grown :
            (o : Option Anonymizer) (a : Anonymizer)
            → GrownIf env.checker o
            → o ≡ some a
            → IsGrown env.checker o
        is_grown none a g e = absurd (cc (e))
        is_grown (some b) a g e = g
    run_codegen-Keeps (named, g, inr (inr (input, cleared, e))) = open-Keeps named g (λ ms d.
        All-map IsNamed _ p.candidates
          (λ c n. (n, inr (inr (inr (schema, input, cleared, rw (sym e) d))))) named)

    pub run_analysis-Keeps :
        Usable env.checker p
        → Keeps Guarded (run_analysis env box b64encode max_retries user_id p schema u)
    unfolding run_analysis finish_analysis
    run_analysis-Keeps h =
        Keeps-bind _ _ (run_codegen-Keeps h)
          (λ o. Keeps-then _ _ (Keeps-transact env.checker box.is_word _) (Keeps-pure _))

module _ (env : Env) (payload : ChatCompletionRequest) (upload : Option Upload)
    (user_id : Text) where
  usable :
      (db : Db) (s : Sources) (r : Routed) (model : Text) (row : Model)
      → IsNamed (r.effective_model, r.row)
      → GrownIf env.checker r.anonymizer
      → Way env.settings env.checker db model row s r
      → MayAsk env.checker
          (build_candidates env.name_le env.settings.fallback_models db r.effective_model r.row)
          r.anonymizer
          (user_text (llm_input s))
  usable db s r model row n g way = (
    build_candidates-IsNamed env.name_le env.settings.fallback_models db r.effective_model r.row n,
    g,
    elim way [
      | inl e ↦ inl (
          build_candidates-sovereign env.name_le env.settings.fallback_models db r.effective_model
            r.row e)
      | inr (inl w) ↦ inr (inl w)
      | inr (inr c) ↦ inr (inr (llm_input s, c, refl))
    ],
  )

  route_turn-Usable :
      (ws : Text) (row : Model) (cid : Option Text) (schema : Option DataSchema) (s : Sources)
      → IsNamed (payload.model, row)
      → Yields (Usable env.checker) (route_turn env payload upload user_id ws row cid schema s)
  unfolding route_turn
  route_turn-Usable ws row cid schema s named = Yields-then _ _ (
      Yields-bind _ _ (λ db. Yields-lift _ _ (λ routed e. Yields-pure _ (
        usable db s routed payload.model row
          (route-IsNamed env.settings env.checker db payload.model row named _ s routed e)
          (route-GrownIf env.settings env.checker db payload.model row _ s routed e)
          (route-Way env.settings env.checker db payload.model row _ s routed e)))))

  -- A turn that is prepared may ask its candidates.
  pub prepare_turn-Usable : Yields (Usable env.checker) (prepare_turn env payload upload user_id)
  unfolding prepare_turn
  prepare_turn-Usable = Yields-bind _ _ (λ db. Yields-bind _ _ (λ member.
      Yields-bind-Yields _ _ _ _ (chosen_row-IsNamed db payload.model _) (λ row named.
        Yields-bind _ _ (λ opened. Yields-bind _ _ (λ schema. Yields-bind _ _ (λ cid.
          Yields-bind _ _
            (λ db'. route_turn-Usable member.workspace_id row cid schema _ named)))))))
