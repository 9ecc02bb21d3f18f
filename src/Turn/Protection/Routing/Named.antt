-- ===== src/Turn/Protection/Routing/Named.antt =====
-- The model that is called is the one of the row: from the chosen model to the candidates.
use decyra_api.Common.{
  ◌≡◌, refl, inl, inr, Bool, ◌&&◌, Option, none, some, List, [], ◌∷◌, ◌==◌, nat_eq, list_eq,
  list_beq_iff, contains, All, arith, Bool-cases, Option-cases,
}
use decyra_api.Common.Text.{Text}
use decyra_api.Llm.{Candidate, add_unseen, fallback_rows, build_candidates}
use decyra_api.Pii.Anonymizer.{Anonymizer}
use decyra_api.Pii.Detect.{Checker, PiiOutcome, anonymize_messages}
use decyra_api.Store.{Db, Model, Msg, enabled_model}
use decyra_api.Turn.Protection.Routing.{find_if-true, plain_raised, masked_none, route-cases}
use decyra_api.Turn.Request.{Settings}
use decyra_api.Turn.Route.{
  Sources, Routed, llm_input, resolve_effective_model, route_plain, route_masked, route,
}
use decyra_api.World.{ok, Outcome-cases}

-- The name that is called is the name of the row.
abbrev pub IsNamed : Candidate → Type 0
IsNamed c = c.0 ≡ c.1.name

add_unseen-IsNamed :
    (rows : List (Option Model)) (seen : List Text) → All IsNamed (add_unseen rows seen)
unfolding add_unseen
add_unseen-IsNamed [] seen = tt
add_unseen-IsNamed (none ∷ rows) seen = add_unseen-IsNamed rows seen
add_unseen-IsNamed (some r ∷ rows) seen = elim (Bool-cases (contains seen r.name)) [
  | inl e ↦ rw e (add_unseen-IsNamed rows seen)
  | inr e ↦ rw e (refl, add_unseen-IsNamed rows (r.name ∷ seen))
]

pub build_candidates-IsNamed :
    (name_le : Text → Text → Bool) (fallback_models : List Text) (db : Db) (name : Text)
    (row : Model)
    → IsNamed (name, row)
    → All IsNamed (build_candidates name_le fallback_models db name row)
unfolding build_candidates
build_candidates-IsNamed name_le fallback_models db name row e =
    (e, add_unseen-IsNamed (fallback_rows name_le fallback_models db row) (name ∷ []))

pub enabled_model-IsNamed :
    (db : Db) (name : Text) (row : Model) → enabled_model db name ≡ some row → IsNamed (name, row)
unfolding enabled_model
enabled_model-IsNamed db name row h = ground (
  arith,
  list_beq_iff row.name name,
  find_if-true (λ (r : Model). r.name == name && r.enabled) db.models row h,
)

module _ (settings : Settings) (k : Checker) (db : Db) (model : Text) (row : Model)
    (named : IsNamed (model, row)) where
  resolve_effective_model-IsNamed :
      (o : PiiOutcome) (name : Text) (r : Model)
      → resolve_effective_model settings db model row o ≡ ok (name, r)
      → IsNamed (name, r)
  unfolding resolve_effective_model
  resolve_effective_model-IsNamed o name r h = ground (
    arith,
    named,
    list_beq_iff r.name settings.sovereign_model,
    find_if-true
        (λ (r : Model). r.name == settings.sovereign_model && r.enabled && r.sovereign_eligible)
        db.models r,
  )

  plain_model :
      (s : Sources) (check outcome : PiiOutcome) (c : Candidate) (r : Routed)
      → resolve_effective_model settings db model row check ≡ ok c
      → route_plain settings k db model row s check outcome ≡ ok r
      → (r.effective_model ≡ c.0) × (r.row ≡ c.1)
  unfolding route_plain
  plain_model s check outcome c r e h = ground (arith)

  route_plain-IsNamed :
      (s : Sources) (check outcome : PiiOutcome) (r : Routed)
      → route_plain settings k db model row s check outcome ≡ ok r
      → IsNamed (r.effective_model, r.row)
  route_plain-IsNamed s check outcome r h =
      elim (Outcome-cases (resolve_effective_model settings db model row check)) [
        | inl (x, e) ↦ absurd (plain_raised settings k db model row s check outcome x r e h)
        | inr (c, e) ↦
            let (model_same, row_same) = plain_model s check outcome c r e h in
            rw (model_same, row_same) (resolve_effective_model-IsNamed check c.0 c.1 e)
      ]

  masked_model :
      (s : Sources) (outcome : PiiOutcome) (r : Routed) (prompt : List Msg) (a : Anonymizer)
      → anonymize_messages k (llm_input s) ≡ some (prompt, a)
      → route_masked settings k db model row s outcome ≡ ok r
      → (r.effective_model ≡ model) × (r.row ≡ row)
  unfolding route_masked
  masked_model s outcome r prompt a e h = ground (arith)

  route_masked-IsNamed :
      (s : Sources) (outcome : PiiOutcome) (r : Routed)
      → route_masked settings k db model row s outcome ≡ ok r
      → IsNamed (r.effective_model, r.row)
  route_masked-IsNamed s outcome r h = elim (Option-cases (anonymize_messages k (llm_input s))) [
    | inl e ↦
        route_plain-IsNamed s _ outcome r (masked_none settings k db model row s outcome r e h)
    | inr ((prompt, a), e) ↦
        let (model_same, row_same) = masked_model s outcome r prompt a e h in
        rw (model_same, row_same) named
  ]

  -- Whatever is routed, the name of the model to call is the name of its row.
  pub route-IsNamed :
      (mode : Text) (s : Sources) (r : Routed)
      → route settings k db model row mode s ≡ ok r
      → IsNamed (r.effective_model, r.row)
  route-IsNamed mode s r h = elim (route-cases settings k db model row mode s r h) [
    | inl e ↦ route_masked-IsNamed s _ r e
    | inr (inl e) ↦ route_plain-IsNamed s _ _ r e
    | inr (inr e) ↦ route_plain-IsNamed s _ _ r e
  ]
