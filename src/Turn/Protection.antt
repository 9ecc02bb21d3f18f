-- ===== src/Turn/Protection.antt =====
-- Which prompts may leave the house: the sovereignty of a chat turn.
pub mod Routing
use decyra_api.Common.{
  ◌≡◌, refl, ◌⊎◌, inl, inr, Bool, true, false, Option, none, some, List, [], ◌∷◌, All, All-map,
  Bool-cases,
}
use decyra_api.Common.Text.{Text}
use decyra_api.Store.{Db, Model, Msg, set_workspace_context, enabled_model}
use decyra_api.World.{
  World, Call, Outcome, ok, raised, Exc, Exec, ◌>>=◌, ◌>>◌, pure, raise, transact, unhandled,
  or_raise,
}
use decyra_api.World.Keeps.{
  Keeps, keeps_rules, Keeps-raise, Keeps-pure, Keeps-catch, Keeps-bind, Keeps-then,
  Keeps-bind-Yields, Yields-bind-Yields, Yields, Yields-bind, Yields-then, Yields-pure, Keeps-gets,
  Keeps-require, Keeps-or_raise,
}
use decyra_api.Llm.{Candidate, build_candidates}
use decyra_api.Llm.Candidates.{build_candidates-sovereign}
use decyra_api.Llm.Fallback.{call_of, complete_with_fallback-Keeps}
use decyra_api.Pii.Detect.{Checker}
use decyra_api.Turn.Request.{ChatCompletionRequest, Upload, DataSchema, Env}
use decyra_api.Turn.Route.{Sources, Routed, route, resolve_pii_mode}
use decyra_api.Turn.Context.{attach, lift, extract_attachment, check_holds}
use decyra_api.Turn.Run.{
  Prepared, of_provider_error, prepare_turn, route_turn, call_model, complete_turn, finish_turn,
  run_chat_turn, Response,
}
use decyra_api.Turn.Stages.{prepare_turn-Keeps}
use Routing.{Masked, Cleared, Allowed, route-Allowed}
use Routing.Named.{IsNamed, build_candidates-IsNamed, enabled_model-IsNamed, route-IsNamed}

-- A call that may go out: its model is the one of its row, and that row is sovereign, or the prompt may
-- leave the house.
abbrev pub Protected : Checker → Call → Type 0
Protected k c = (c.model ≡ c.row.name) × ((c.row.sovereign_eligible ≡ true) ⊎ Allowed k c.messages)

-- No candidate of the turn gets a call that may not go out.
abbrev pub Ready : Checker → Prepared → Type 0
Ready k p = All (λ (c : Candidate). Protected k (call_of p.routed.prompt c)) p.candidates

abbrev Safe : Checker → World → Type 0
Safe k w = All (Protected k) w.calls

Keeps-transact : {A : Type 0} (k : Checker) (f : Db → A × Db) → Keeps (Safe k) (transact f)
unfolding transact
Keeps-transact k f = record { at = λ w h. h }

pub Yields-lift :
    {A B : Type 0} {Q : B → Type 0} (o : Outcome A) (f : A → Exec B)
    → ((a : A) → o ≡ ok a → Yields Q (f a))
    → Yields Q (lift o >>= f)
unfolding ◌>>=◌ pure raise
Yields-lift (ok a) f h = record { at = λ w. (h a refl).at w }
Yields-lift (raised e) f h = record { at = λ w. tt }

-- Both hold of all, the one for each reason of the other.
pub All-both :
    {A : Type 0} (P Q R : A → Type 0) (xs : List A)
    → ((x : A) → P x → Q x → R x)
    → All P xs
    → All Q xs
    → All R xs
All-both P Q R [] f _ _ = tt
All-both P Q R (x ∷ xs) f (p, ps) (q, qs) = (f x p q, All-both P Q R xs f ps qs)

-- The candidates of a routed turn.
candidates-Protected :
    (k : Checker) (name_le : Text → Text → Bool) (names : List Text) (db : Db) (r : Routed)
    → IsNamed (r.effective_model, r.row)
    → (r.row.sovereign_eligible ≡ true) ⊎ Allowed k r.prompt
    → All
        (λ (c : Candidate). Protected k (call_of r.prompt c))
        (build_candidates name_le names db r.effective_model r.row)
candidates-Protected k name_le names db r named (inl e) =
    All-both IsNamed _ _ (build_candidates name_le names db r.effective_model r.row)
      (λ c n h. (n, inl h))
      (build_candidates-IsNamed name_le names db r.effective_model r.row named)
      (build_candidates-sovereign name_le names db r.effective_model r.row e)
candidates-Protected k name_le names db r named (inr h) =
    All-map IsNamed _ (build_candidates name_le names db r.effective_model r.row)
      (λ c n. (n, inr h)) (build_candidates-IsNamed name_le names db r.effective_model r.row named)

-- The row of the model that the request names.
chosen_row_of :
    (db : Db) (name : Text) (e : Exc) (o : Option Model)
    → enabled_model db name ≡ o
    → Yields (λ row. IsNamed (name, row)) (or_raise o e)
unfolding or_raise
chosen_row_of db name e none q = record { at = λ w. tt }
chosen_row_of db name e (some row) q = record { at = λ w. enabled_model-IsNamed db name row q }

pub chosen_row-IsNamed :
    (db : Db) (name : Text) (e : Exc)
    → Yields (λ row. IsNamed (name, row)) (or_raise (enabled_model db name) e)
chosen_row-IsNamed db name e = chosen_row_of db name e (enabled_model db name) refl

module _ (env : Env) (payload : ChatCompletionRequest) (upload : Option Upload)
    (user_id : Text) where
  route_turn-Ready :
      (ws : Text) (row : Model) (cid : Option Text) (schema : Option DataSchema) (s : Sources)
      → IsNamed (payload.model, row)
      → Yields (Ready env.checker) (route_turn env payload upload user_id ws row cid schema s)
  unfolding route_turn
  route_turn-Ready ws row cid schema s named = Yields-then _ _ (
      Yields-bind _ _ (λ db. Yields-lift _ _ (λ routed e. Yields-pure _ (
        candidates-Protected env.checker env.name_le env.settings.fallback_models db routed
          (route-IsNamed env.settings env.checker db payload.model row named _ s routed e)
          (route-Allowed env.settings env.checker db payload.model row _ s routed e)))))

  pub prepare_turn-Ready : Yields (Ready env.checker) (prepare_turn env payload upload user_id)
  unfolding prepare_turn
  prepare_turn-Ready = Yields-bind _ _ (λ db. Yields-bind _ _ (λ member.
      Yields-bind-Yields _ _ _ _ (chosen_row-IsNamed db payload.model _) (λ row named.
        Yields-bind _ _ (λ opened. Yields-bind _ _ (λ schema. Yields-bind _ _ (λ cid.
          Yields-bind _ _ (λ db'. route_turn-Ready member.workspace_id row cid schema _ named)))))))

  complete_turn-Keeps :
      (p : Prepared)
      → Ready env.checker p
      → Keeps (Safe env.checker) (complete_turn env payload upload user_id p)
  unfolding complete_turn call_model finish_turn
  complete_turn-Keeps p ready =
      Keeps-bind _ _
        (Keeps-catch _ _
          (complete_with_fallback-Keeps env.provider p.routed.prompt (Protected env.checker)
            p.candidates ready)
          (λ e. Keeps-raise _))
        (λ a. Keeps-bind _ _ (Keeps-transact env.checker _) (λ cid. Keeps-pure _))

  -- If every call so far was to the model of its row, and that row is sovereign or the prompt is one that the
  -- anonymiser wrote or one whose user messages all stand in a text that was checked and found clean, then
  -- so are all calls after a chat turn, however it ends.
  pub run_chat_turn-Protected :
      (w : World)
      → All (Protected env.checker) w.calls
      → All (Protected env.checker) (run_chat_turn env payload upload user_id w).1.calls
  unfolding run_chat_turn
  run_chat_turn-Protected w h =
      (Keeps-bind-Yields (Ready env.checker) _ _
          (prepare_turn-Keeps (Safe env.checker) env payload
            (λ ws u c x. Keeps-transact env.checker _) upload user_id)
          prepare_turn-Ready complete_turn-Keeps).at
        w h
