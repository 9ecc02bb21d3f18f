-- ===== src/Turn/Protection/Routing/Honest.antt =====
-- A turn that is marked as anonymised sends what the anonymiser made.
use decyra_api.Common.{◌≡◌, sym, ◌∙◌, inl, inr, true, false, arith, Option-cases}
use decyra_api.Common.Text.{Text}
use decyra_api.Pii.Detect.{Checker, PiiOutcome, anonymize_messages}
use decyra_api.Store.{Db, Model}
use decyra_api.Turn.Protection.Routing.{Masked, masked_none, masked_some, route-cases}
use decyra_api.Turn.Request.{Settings}
use decyra_api.Turn.Route.{Sources, Routed, llm_input, route_plain, route_masked, route}
use decyra_api.World.{ok}

-- The mark is true of the prompt.
abbrev pub IsHonest : Checker → Routed → Type 0
IsHonest k r = r.anonymized ≡ true → Masked k r.prompt

module _ (settings : Settings) (k : Checker) (db : Db) (model : Text) (row : Model) where
  plain_unmarked :
      (s : Sources) (check outcome : PiiOutcome) (r : Routed)
      → route_plain settings k db model row s check outcome ≡ ok r
      → r.anonymized ≡ false
  unfolding route_plain
  plain_unmarked s check outcome r h = ground (arith)

  plain-IsHonest :
      (s : Sources) (check outcome : PiiOutcome) (r : Routed)
      → route_plain settings k db model row s check outcome ≡ ok r
      → IsHonest k r
  plain-IsHonest s check outcome r h e =
      absurd (true_not_false (sym e ∙ plain_unmarked s check outcome r h))
    where
      true_not_false : true ≡ false → ⊥
      true_not_false e = cc

  masked-IsHonest :
      (s : Sources) (outcome : PiiOutcome) (r : Routed)
      → route_masked settings k db model row s outcome ≡ ok r
      → IsHonest k r
  masked-IsHonest s outcome r h = elim (Option-cases (anonymize_messages k (llm_input s))) [
    | inl e ↦ plain-IsHonest s _ outcome r (masked_none settings k db model row s outcome r e h)
    | inr ((prompt, a), e) ↦
        λ _. rw (masked_some settings k db model row s outcome r prompt a e h) (llm_input s, a, e)
  ]

  pub route-IsHonest :
      (mode : Text) (s : Sources) (r : Routed)
      → route settings k db model row mode s ≡ ok r
      → IsHonest k r
  route-IsHonest mode s r h = elim (route-cases settings k db model row mode s r h) [
    | inl e ↦ masked-IsHonest s _ r e
    | inr (inl e) ↦ plain-IsHonest s _ _ r e
    | inr (inr e) ↦ plain-IsHonest s _ _ r e
  ]
