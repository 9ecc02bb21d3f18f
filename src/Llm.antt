-- ===== src/Llm.antt =====
-- app/llm_call.py: the fallback candidates and the calls along them.
pub mod Answers
pub mod Candidates
pub mod Fallback
use decyra_api.Common.{
  ℕ, Bool, true, false, not, ◌&&◌, Option, none, some, List, [], ◌∷◌, ◌++◌, map, ◌==◌, nat_eq,
  list_eq, contains, if◌then◌else◌, keep_if,
}
use decyra_api.Common.Text.{Text}
use decyra_api.Pii.Spans.{sorted}
use decyra_api.Store.{Db, Model, Msg, enabled_model}
use decyra_api.World.{
  World, Call, CallError, permanent, transient, unexpected, Entry, Exec, Outcome, ok, raised,
  providers_unavailable, provider_error,
}

-- A candidate: the name to call, and the row of `models`.
abbrev pub Candidate : Type 0
Candidate = Text × Model

-- The last loop of `build_candidates`; the second argument is `seen`.
unfoldable pub add_unseen : List (Option Model) → List Text → List Candidate
add_unseen [] seen = []
add_unseen (none ∷ rows) seen = add_unseen rows seen
add_unseen (some r ∷ rows) seen =
    let rest = add_unseen rows (r.name ∷ seen) in
    let skipped = add_unseen rows seen in
    if contains seen r.name then skipped else (r.name, r) ∷ rest

-- `WHERE enabled = true AND sovereign_eligible = true ORDER BY name`; the collation is a parameter.
unfoldable pub sovereign_rows : (Text → Text → Bool) → Db → List Model
sovereign_rows name_le db =
    sorted (λ (a b : Model). name_le a.name b.name)
      (keep_if (λ (r : Model). r.enabled && r.sovereign_eligible) db.models)

-- The rows that the primary model may fall back to.
unfoldable pub fallback_rows : (Text → Text → Bool) → List Text → Db → Model → List (Option Model)
unfolding sovereign_rows
fallback_rows name_le fallback_models db primary_row =
    if primary_row.sovereign_eligible
    then map some (sovereign_rows name_le db)
    else map (enabled_model db) fallback_models

unfoldable pub build_candidates :
    (Text → Text → Bool) → List Text → Db → Text → Model → List Candidate
unfolding add_unseen fallback_rows
build_candidates name_le fallback_models db primary_model primary_row =
    (primary_model, primary_row)
    ∷ add_unseen (fallback_rows name_le fallback_models db primary_row) (primary_model ∷ [])

-- What a provider returns to a call. `litellm.completion` may answer as it likes, call by call.
pub record Answer : Type 0 where
  pub model : Option Text
  pub role : Text
  pub content : Option Text
  pub finish_reason : Text
  pub prompt_tokens : ℕ
  pub completion_tokens : ℕ

pub data Reply (A : Type 0) : Type 0 where
  answered : A → Reply A
  failed : CallError → Reply A

abbrev has_more {ℓ} : {A : Type ℓ} → List A → Bool
has_more [] = false
has_more (x ∷ xs) = true

-- `_log_failure` in the two branches that go on
unfoldable pub log_outage : Candidate → CallError → Bool → World → World
log_outage (model, row) e more w = record w {
  errors =
      w.errors
      ++ record {
        is_error = not more;
        model = model;
        provider = row.provider;
        error = e;
        fallback_used = more;
      }
        ∷ [];
}

-- `_log_failure` in the branch that re-raises
unfoldable pub log_permanent : Candidate → CallError → World → World
log_permanent (model, row) e w = record w {
  errors =
      w.errors
      ++ record {
        is_error = true;
        model = model;
        provider = row.provider;
        error = e;
        fallback_used = false;
      }
        ∷ [];
}

unfoldable pub send : Candidate → List Msg → World → World
send (model, row) messages w = record w {
  calls = w.calls ++ record { model = model; row = row; messages = messages } ∷ [];
}

-- The three handlers of a candidate's call; `next` is the rest of the loop.
unfoldable pub settle :
    {A : Type 0} → Candidate → Bool → Reply A → Exec (Candidate × A) → Exec (Candidate × A)
unfolding log_outage log_permanent
settle c more (answered a) next w = (ok (c, a), w)
settle c more (failed (permanent p)) next w =
    (raised (provider_error p), log_permanent c (permanent p) w)
settle c more (failed e) next w = next (log_outage c e more w)

module _ {A : Type 0} (provider : List Call → Call → Reply A) where
  -- The loop of `complete_with_fallback`, and of `open_stream_with_fallback`, whose answer is an open
  -- stream with its first chunk.
  unfoldable pub complete_with_fallback : List Candidate → List Msg → Exec (Candidate × A)
  unfolding settle send
  complete_with_fallback [] messages w = (raised providers_unavailable, w)
  complete_with_fallback (c ∷ cs) messages w =
      settle c (has_more cs)
        (provider w.calls (record { model = c.0; row = c.1; messages = messages }))
        (complete_with_fallback cs messages) (send c messages w)
