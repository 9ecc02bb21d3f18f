-- ===== src/Turn/Protection/Routing/Ways.antt =====
-- Why `route` lets a prompt through: the model, the anonymiser, or a check.
use decyra_api.Common.{◌≡◌, ◌⊎◌, inl, inr, true, none, some, Option, List, All, arith, Option-cases}
use decyra_api.Common.Text.{Text}
use decyra_api.Chat.{user}
use decyra_api.Store.{Db, Model, Msg}
use decyra_api.World.{ok}
use decyra_api.Pii.Anonymizer.{Anonymizer, empty}
use decyra_api.Pii.Detect.{Checker, PiiOutcome, contains_pii, anonymize_messages, anonymize_with}
use decyra_api.Turn.Request.{Settings}
use decyra_api.Turn.Route.{Sources, Routed, llm_input, route_plain, route_masked, route}
use decyra_api.Turn.Protection.Routing.{
  IsInfix, Cleared, contains_pii-clean, full_text-IsInfix, Plain, masked_none,
  unavailable_sovereign, route_plain_lem, users-IsInfix, route-cases,
}

-- The anonymisers that come about: the empty one, and what one becomes by masking messages.
pub data Grown (k : Checker) : Anonymizer → Type 0 where
  begun : Grown k empty
  grown :
      (a b : Anonymizer) (input out : List Msg)
      → Grown k a
      → anonymize_with k a input ≡ some (out, b)
      → Grown k b

abbrev pub GrownIf : Checker → Option Anonymizer → Type 0
GrownIf k none = Unit
GrownIf k (some a) = Grown k a

module _ (settings : Settings) (k : Checker) (db : Db) (model : Text) (row : Model) where
  -- The model is sovereign, the prompt is masked, or the input was checked as it is.
  abbrev pub Way : Sources → Routed → Type 0
  Way s r =
      (r.row.sovereign_eligible ≡ true)
      ⊎ (((a : Anonymizer) × (r.anonymizer ≡ some a)) ⊎ Cleared k (llm_input s))

  masked_anonymizer :
      (s : Sources) (outcome : PiiOutcome) (r : Routed) (prompt : List Msg) (a : Anonymizer)
      → anonymize_messages k (llm_input s) ≡ some (prompt, a)
      → route_masked settings k db model row s outcome ≡ ok r
      → r.anonymizer ≡ some a
  unfolding route_masked
  masked_anonymizer s outcome r prompt a e h = ground (arith)

  masked-Way :
      (s : Sources) (outcome : PiiOutcome) (r : Routed)
      → route_masked settings k db model row s outcome ≡ ok r
      → Way s r
  masked-Way s outcome r h = elim (Option-cases (anonymize_messages k (llm_input s))) [
    | inl e ↦ inl (
        unavailable_sovereign settings k db model row s r (
          route_plain_lem settings k db model row s _ outcome r
            (masked_none settings k db model row s outcome r e h)))
    | inr ((prompt, a), e) ↦ inr (inl (a, masked_anonymizer s outcome r prompt a e h))
  ]

  Plain-Way :
      (s : Sources) (text : Text) (r : Routed)
      → All (λ (m : Msg). m.role ≡ user → IsInfix m.content text) (llm_input s)
      → Plain settings k db model row s (contains_pii k text) r
      → Way s r
  Plain-Way s text r h p = elim p.why [
    | inl e ↦ inl e
    | inr e ↦ inr (inr (text, contains_pii-clean k text e, h))
  ]

  pub route-Way :
      (mode : Text) (s : Sources) (r : Routed)
      → route settings k db model row mode s ≡ ok r
      → Way s r
  route-Way mode s r h = elim (route-cases settings k db model row mode s r h) [
    | inl e ↦ masked-Way s _ r e
    | inr (inl e) ↦
        Plain-Way s _ r (full_text-IsInfix (llm_input s))
          (route_plain_lem settings k db model row s _ _ r e)
    | inr (inr e) ↦
        Plain-Way s _ r (users-IsInfix settings k db model row s)
          (route_plain_lem settings k db model row s _ _ r e)
  ]

  plain_anonymizer :
      (s : Sources) (check outcome : PiiOutcome) (r : Routed)
      → route_plain settings k db model row s check outcome ≡ ok r
      → r.anonymizer ≡ none
  unfolding route_plain
  plain_anonymizer s check outcome r h = ground (arith)

  plain-GrownIf :
      (s : Sources) (check outcome : PiiOutcome) (r : Routed)
      → route_plain settings k db model row s check outcome ≡ ok r
      → GrownIf k r.anonymizer
  plain-GrownIf s check outcome r h = rw (plain_anonymizer s check outcome r h) tt

  anonymized-Grown :
      (input prompt : List Msg) (a : Anonymizer)
      → anonymize_messages k input ≡ some (prompt, a)
      → Grown k a
  unfolding anonymize_messages
  anonymized-Grown input prompt a e = grown empty a input prompt begun e

  masked-GrownIf :
      (s : Sources) (outcome : PiiOutcome) (r : Routed)
      → route_masked settings k db model row s outcome ≡ ok r
      → GrownIf k r.anonymizer
  masked-GrownIf s outcome r h = elim (Option-cases (anonymize_messages k (llm_input s))) [
    | inl e ↦ plain-GrownIf s _ outcome r (masked_none settings k db model row s outcome r e h)
    | inr ((prompt, a), e) ↦
        rw (masked_anonymizer s outcome r prompt a e h) (anonymized-Grown (llm_input s) prompt a e)
  ]

  pub route-GrownIf :
      (mode : Text) (s : Sources) (r : Routed)
      → route settings k db model row mode s ≡ ok r
      → GrownIf k r.anonymizer
  route-GrownIf mode s r h = elim (route-cases settings k db model row mode s r h) [
    | inl e ↦ masked-GrownIf s _ r e
    | inr (inl e) ↦ plain-GrownIf s _ _ r e
    | inr (inr e) ↦ plain-GrownIf s _ _ r e
  ]
