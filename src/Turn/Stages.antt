-- ===== src/Turn/Stages.antt =====
-- The stages of a turn before the call of a model: what they keep, in one place for all invariants.
use decyra_api.Common.{Bool, true, false, Option, none, some, if◌then◌else◌}
use decyra_api.Common.Text.{Text}
use decyra_api.Store.{Model}
use decyra_api.World.{World, Exec, Outcome, ok, raised, unhandled, transact}
use decyra_api.World.Keeps.{
  Keeps, keeps_rules, Keeps-raise, Keeps-pure, Keeps-bind, Keeps-then, Keeps-gets, Keeps-require,
  Keeps-or_raise,
}
use decyra_api.Turn.Request.{ChatCompletionRequest, Upload, DataSchema, Env}
use decyra_api.Turn.Route.{Sources}
use decyra_api.Turn.Context.{
  Extracted, attach, lift, extract_attachment, store_attachment, check_holds,
}
use decyra_api.Turn.Run.{prepare_turn, route_turn}

pub Keeps-lift : {P : World → Type 0} {A : Type 0} (o : Outcome A) → Keeps P (lift o)
Keeps-lift (ok a) = Keeps-pure a
Keeps-lift (raised e) = Keeps-raise e

if-Keeps :
    {P : World → Type 0} {A : Type 0} (b : Bool) {m n : Exec A}
    → Keeps P m
    → Keeps P n
    → Keeps P (if b then m else n)
if-Keeps true km kn = km
if-Keeps false km kn = kn

module _ (P : World → Type 0) (env : Env) (payload : ChatCompletionRequest)
    (stores : (ws user_id : Text) (existing : Option Text) (x : Extracted)
      → Keeps P (transact (store_attachment env payload ws user_id existing x))) where
  attach-Keeps :
      (ws user_id : Text) (existing : Option Text) (upload : Option Upload)
      → Keeps P (attach env payload ws user_id existing upload)
  unfolding attach
  attach-Keeps ws user_id existing none = Keeps-pure existing
  attach-Keeps ws user_id existing (some u) =
      if-Keeps payload.use_code_interpreter (Keeps-pure existing) (
        Keeps-bind _ _ (Keeps-lift (extract_attachment env u)) (λ x.
          Keeps-then _ _ (Keeps-require (check_holds payload existing) unhandled)
            (stores ws user_id existing x)))

  route_turn-Keeps :
      (upload : Option Upload) (user_id ws : Text) (row : Model) (cid : Option Text)
      (schema : Option DataSchema) (s : Sources)
      → Keeps P (route_turn env payload upload user_id ws row cid schema s)
  unfolding route_turn
  route_turn-Keeps upload user_id ws row cid schema s = search (keeps_rules, Keeps-lift)

  pub prepare_turn-Keeps :
      (upload : Option Upload) (user_id : Text) → Keeps P (prepare_turn env payload upload user_id)
  unfolding prepare_turn
  prepare_turn-Keeps upload user_id = Keeps-bind _ _ (Keeps-gets _) (λ db.
      Keeps-bind _ _ (Keeps-or_raise _ _) (λ member. Keeps-bind _ _ (Keeps-or_raise _ _) (λ row.
        Keeps-bind _ _ (Keeps-lift _) (λ opened. Keeps-bind _ _ (Keeps-lift _) (λ schema.
          Keeps-bind _ _ (attach-Keeps member.workspace_id user_id opened.0 upload) (λ cid.
            Keeps-bind _ _ (Keeps-gets _)
              (λ db'. route_turn-Keeps upload user_id member.workspace_id row cid schema _)))))))
