-- ===== src/Turn/Protection/Routing.antt =====
-- What `route` lets through.
pub mod Ways
pub mod Named
pub mod Honest
use decyra_api.Common.{
  ◌≡◌, ◌≢◌, refl, sym, ◌⊎◌, inl, inr, Bool, true, false, ◌&&◌, none, some, List, [], ◌∷◌, ◌++◌,
  append_assoc, append-nil, map, ◌==◌, nat_eq, list_eq, list_beq_iff, All, All-map, arith, keep_if,
  find_if, Bool-cases, Option-cases,
}
use decyra_api.Common.Text.{Text, codes, join}
use decyra_api.Store.{Db, Model, Msg}
use decyra_api.World.{ok, raised, Exc, Outcome-cases}
use decyra_api.Chat.{user}
use decyra_api.Pii.Anonymizer.{Anonymizer}
use decyra_api.Pii.Detect.{
  Checker, PiiOutcome, clean, unavailable, needs_protection, contains_pii, anonymize_messages,
}
use decyra_api.Turn.Request.{Settings}
use decyra_api.Turn.Route.{
  Sources, Routed, llm_input, is_nonempty, content_of, full_text, user_text, routing_text,
  resolve_effective_model, route_plain, route_masked, route,
}

abbrev pub IsInfix : Text → Text → Type 0
IsInfix x y = (a : Text) × (b : Text) × (y ≡ a ++ (x ++ b))

-- The messages are the output of the anonymiser.
abbrev pub Masked : Checker → List Msg → Type 0
Masked k ms = (input : List Msg) × (a : Anonymizer) × (anonymize_messages k input ≡ some (ms, a))

-- What the users wrote in the messages stands in a text that was checked and found clean.
abbrev pub Cleared : Checker → List Msg → Type 0
Cleared k ms =
    (text : Text) × ((contains_pii k text).status ≡ clean)
    × All (λ (m : Msg). m.role ≡ user → IsInfix m.content text) ms

-- A prompt that may go to a model that is not sovereign.
abbrev pub Allowed : Checker → List Msg → Type 0
Allowed k ms = Masked k ms ⊎ Cleared k ms

IsInfix-append_left : (x y p : Text) → IsInfix x y → IsInfix x (p ++ y)
IsInfix-append_left x y p (a, b, e) = (p ++ a, b, rw e (sym (append_assoc p a (x ++ b))))

IsInfix-append_right : (x y q : Text) → IsInfix x y → IsInfix x (y ++ q)
IsInfix-append_right x y q (a, b, e) = (a, b ++ q, rw e (simp append_assoc))

IsInfix-refl : (x : Text) → IsInfix x x
IsInfix-refl x = ([], [], sym (append-nil x))

IsInfix-nil : (x y : Text) → IsInfix x [] → IsInfix x y
IsInfix-nil [] y h = ([], y, refl)
IsInfix-nil (c ∷ x) y ([], b, e) = cc
IsInfix-nil (c ∷ x) y (d ∷ a, b, e) = cc

module _ (sep : Text) where
  join_head : (t : Text) (ts : List Text) → IsInfix t (join sep (t ∷ ts))
  unfolding join
  join_head t [] = IsInfix-refl t
  join_head t (u ∷ ts) = ([], sep ++ join sep (u ∷ ts), refl)

  join_tail :
      (x t : Text) (ts : List Text) → IsInfix x (join sep ts) → IsInfix x (join sep (t ∷ ts))
  unfolding join
  join_tail x t [] h = IsInfix-nil x t h
  join_tail x t (u ∷ ts) h =
      IsInfix-append_left x _ t (IsInfix-append_left x (join sep (u ∷ ts)) sep h)

  joined : (p : Msg → Bool) → List Msg → Text
  joined p ms = join sep (map content_of (keep_if p ms))

  joined_keep :
      (p : Msg → Bool) (m : Msg) (ms : List Msg)
      → p m ≡ true
      → joined p (m ∷ ms) ≡ join sep (m.content ∷ map content_of (keep_if p ms))
  unfolding joined
  joined_keep p m ms e = rw e refl

  joined_drop :
      (p : Msg → Bool) (m : Msg) (ms : List Msg) → p m ≡ false → joined p (m ∷ ms) ≡ joined p ms
  unfolding joined
  joined_drop p m ms e = rw e refl

  joined_head :
      (p : Msg → Bool) (m : Msg) (ms : List Msg)
      → p m ≡ true
      → IsInfix m.content (joined p (m ∷ ms))
  joined_head p m ms e =
      rw (joined_keep p m ms e) (join_head m.content (map content_of (keep_if p ms)))

  joined_tail :
      (p : Msg → Bool) (t : Text) (m : Msg) (ms : List Msg)
      → IsInfix t (joined p ms)
      → IsInfix t (joined p (m ∷ ms))
  unfolding joined
  joined_tail p t m ms h = elim (Bool-cases (p m)) [
    | inl e ↦ rw (joined_keep p m ms e) (join_tail t m.content (map content_of (keep_if p ms)) h)
    | inr e ↦ rw (joined_drop p m ms e) h
  ]

  -- Every message that passes the test stands in the joined text.
  joined-IsInfix :
      (p : Msg → Bool) (ms : List Msg)
      → All (λ (m : Msg). p m ≡ true → IsInfix m.content (joined p ms)) ms
  joined-IsInfix p [] = tt
  joined-IsInfix p (m ∷ ms) = (
    joined_head p m ms,
    All-map (λ (n : Msg). p n ≡ true → IsInfix n.content (joined p ms)) _ ms
        (λ n h q. joined_tail p n.content m ms (h q)) (joined-IsInfix p ms),
  )

-- An empty message stands in every text, and a user's message passes the test of `user_text`.
content_cases : (t text : Text) → (is_nonempty t ≡ true → IsInfix t text) → IsInfix t text
content_cases [] text h = ([], text, refl)
content_cases (c ∷ t) text h = h refl

user_text-IsInfix :
    (ms : List Msg) → All (λ (m : Msg). m.role ≡ user → IsInfix m.content (user_text ms)) ms
unfolding user_text joined
user_text-IsInfix ms =
    All-map _ _ ms
      (λ (m : Msg) h role.
        content_cases m.content _ (λ q. h (rw (q, (list_beq_iff m.role user).1 role))))
      (joined-IsInfix (codes "\n") (λ (m : Msg). m.role == user && is_nonempty m.content) ms)

full_text-IsInfix :
    (ms : List Msg) → All (λ (m : Msg). m.role ≡ user → IsInfix m.content (full_text ms)) ms
unfolding full_text joined
full_text-IsInfix ms =
    All-map _ _ ms (λ (m : Msg) h role. content_cases m.content _ h)
      (joined-IsInfix (codes "\n") (λ (m : Msg). is_nonempty m.content) ms)

routing_text-IsInfix :
    (s : Sources) (t : Text) → IsInfix t (user_text (llm_input s)) → IsInfix t (routing_text s)
unfolding routing_text
routing_text-IsInfix s t h = IsInfix-append_right t _ _ h

-- A check that does not call for protection was carried out and found nothing.
contains_pii-clean :
    (k : Checker) (text : Text)
    → needs_protection (contains_pii k text) ≡ false
    → (contains_pii k text).status ≡ clean
unfolding contains_pii needs_protection
contains_pii-clean k text = ground arith

find_if-true :
    (p : Model → Bool) (rows : List Model) (r : Model) → find_if p rows ≡ some r → p r ≡ true
find_if-true p [] r h = cc
find_if-true p (x ∷ rows) r h = ground (arith, find_if-true p rows r)

-- The effective model is sovereign, or the outcome calls for no protection.
resolve_effective_model-sovereign :
    (settings : Settings) (db : Db) (chosen : Text) (row : Model) (o : PiiOutcome) (name : Text)
    (r : Model)
    → resolve_effective_model settings db chosen row o ≡ ok (name, r)
    → (r.sovereign_eligible ≡ true) ⊎ (needs_protection o ≡ false)
unfolding resolve_effective_model
resolve_effective_model-sovereign settings db chosen row o name r h = ground (
  arith,
  find_if-true
      (λ (r : Model). r.name == settings.sovereign_model && r.enabled && r.sovereign_eligible)
      db.models r,
)

module _ (settings : Settings) (k : Checker) (db : Db) (model : Text) (row : Model) where
  record Plain (s : Sources) (check : PiiOutcome) (r : Routed) : Type 0 where
    prompt_same : r.prompt ≡ llm_input s
    why : (r.row.sovereign_eligible ≡ true) ⊎ (needs_protection check ≡ false)

  plain_ok :
      (s : Sources) (check outcome : PiiOutcome) (c : Text × Model) (r : Routed)
      → resolve_effective_model settings db model row check ≡ ok c
      → route_plain settings k db model row s check outcome ≡ ok r
      → (r.prompt ≡ llm_input s) × (r.row ≡ c.1)
  unfolding route_plain
  plain_ok s check outcome c r e h = ground (arith)

  plain_raised :
      (s : Sources) (check outcome : PiiOutcome) (x : Exc) (r : Routed)
      → resolve_effective_model settings db model row check ≡ raised x
      → route_plain settings k db model row s check outcome ≢ ok r
  unfolding route_plain
  plain_raised s check outcome x r e h = ground (arith)

  route_plain_lem :
      (s : Sources) (check outcome : PiiOutcome) (r : Routed)
      → route_plain settings k db model row s check outcome ≡ ok r
      → Plain s check r
  route_plain_lem s check outcome r h =
      elim (Outcome-cases (resolve_effective_model settings db model row check)) [
        | inl (x, e) ↦ absurd (plain_raised s check outcome x r e h)
        | inr (c, e) ↦
            let (prompt_same, row_same) = plain_ok s check outcome c r e h in
            record {
              prompt_same = prompt_same;
              why =
                  rw row_same
                    (resolve_effective_model-sovereign settings db model row check c.0 c.1 e);
            }
      ]

  masked_none :
      (s : Sources) (outcome : PiiOutcome) (r : Routed)
      → anonymize_messages k (llm_input s) ≡ none
      → route_masked settings k db model row s outcome ≡ ok r
      → route_plain settings k db model row s
          (record { status = unavailable; is_detected = false })
          outcome
        ≡ ok r
  unfolding route_masked
  masked_none s outcome r e h = ground (arith)

  masked_some :
      (s : Sources) (outcome : PiiOutcome) (r : Routed) (prompt : List Msg) (a : Anonymizer)
      → anonymize_messages k (llm_input s) ≡ some (prompt, a)
      → route_masked settings k db model row s outcome ≡ ok r
      → r.prompt ≡ prompt
  unfolding route_masked
  masked_some s outcome r prompt a e h = ground (arith)

  unavailable_sovereign :
      (s : Sources) (r : Routed)
      → Plain s (record { status = unavailable; is_detected = false }) r
      → r.row.sovereign_eligible ≡ true
  unfolding needs_protection
  unavailable_sovereign s r h = let w = h.why in ground (arith)

  route_masked_lem :
      (s : Sources) (outcome : PiiOutcome) (r : Routed)
      → route_masked settings k db model row s outcome ≡ ok r
      → (r.row.sovereign_eligible ≡ true) ⊎ Masked k r.prompt
  route_masked_lem s outcome r h = elim (Option-cases (anonymize_messages k (llm_input s))) [
    | inl e ↦
        inl
          (unavailable_sovereign s r (route_plain_lem s _ outcome r (masked_none s outcome r e h)))
    | inr ((prompt, a), e) ↦ inr (rw (masked_some s outcome r prompt a e h) (llm_input s, a, e))
  ]

  -- A prompt that was checked as it is.
  Cleared_of_Plain :
      (s : Sources) (text : Text) (r : Routed)
      → All (λ (m : Msg). m.role ≡ user → IsInfix m.content text) (llm_input s)
      → Plain s (contains_pii k text) r
      → (r.row.sovereign_eligible ≡ true) ⊎ Allowed k r.prompt
  Cleared_of_Plain s text r h p = elim p.why [
    | inl e ↦ inl e
    | inr e ↦ inr (inr (rw p.prompt_same (text, contains_pii-clean k text e, h)))
  ]

  users-IsInfix :
      (s : Sources)
      → All (λ (m : Msg). m.role ≡ user → IsInfix m.content (routing_text s)) (llm_input s)
  users-IsInfix s =
      All-map _ _ (llm_input s) (λ (m : Msg) h role. routing_text-IsInfix s m.content (h role))
        (user_text-IsInfix (llm_input s))

  -- The three ways through `route`.
  route-cases :
      (mode : Text) (s : Sources) (r : Routed)
      → route settings k db model row mode s ≡ ok r
      → (route_masked settings k db model row s (contains_pii k (full_text (llm_input s))) ≡ ok r)
        ⊎ ((route_plain settings k db model row s
                (contains_pii k (full_text (llm_input s)))
                (contains_pii k (full_text (llm_input s)))
              ≡ ok r)
            ⊎ (route_plain settings k db model row s
                  (contains_pii k (routing_text s))
                  (contains_pii k (routing_text s))
                ≡ ok r))
  unfolding route
  route-cases mode s r h = ground (arith)

  pub route-Allowed :
      (mode : Text) (s : Sources) (r : Routed)
      → route settings k db model row mode s ≡ ok r
      → (r.row.sovereign_eligible ≡ true) ⊎ Allowed k r.prompt
  route-Allowed mode s r h = elim (route-cases mode s r h) [
    | inl e ↦ elim (route_masked_lem s _ r e) [ inl q ↦ inl q | inr q ↦ inr (inl q) ]
    | inr (inl e) ↦
        Cleared_of_Plain s _ r (full_text-IsInfix (llm_input s)) (route_plain_lem s _ _ r e)
    | inr (inr e) ↦ Cleared_of_Plain s _ r (users-IsInfix s) (route_plain_lem s _ _ r e)
  ]
