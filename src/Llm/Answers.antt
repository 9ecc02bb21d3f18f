-- ===== src/Llm/Answers.antt =====
-- Where the answer of the loop comes from, and that the loop leaves the database alone.
use decyra_api.Common.{◌≡◌, refl, Bool, List, [], ◌∷◌}
use decyra_api.Store.{Db, Msg}
use decyra_api.Llm.{Candidate, Reply, answered, failed, settle, send, complete_with_fallback}
use decyra_api.World.{World, Call, permanent, transient, unexpected, Exec}
use decyra_api.World.Keeps.{Keeps, Yields}

-- The calls of providers leave the database as it is.
abbrev pub SameDb : Db → World → Type 0
SameDb db w = w.db ≡ db

module _ (db : Db) {A : Type 0} (provider : List Call → Call → Reply A) (messages : List Msg) where
  settle-SameDb :
      (c : Candidate) (more : Bool) (r : Reply A) (next : Exec (Candidate × A))
      → Keeps (SameDb db) next
      → Keeps (SameDb db) (settle c more r next)
  unfolding settle
  settle-SameDb c more (answered a) next k = record { at = λ w h. h }
  settle-SameDb c more (failed (permanent p)) next k = record { at = λ w h. h }
  settle-SameDb c more (failed transient) next k = record { at = λ w h. k.at _ h }
  settle-SameDb c more (failed unexpected) next k = record { at = λ w h. k.at _ h }

  pub complete_with_fallback-SameDb :
      (cs : List Candidate) → Keeps (SameDb db) (complete_with_fallback provider cs messages)
  unfolding complete_with_fallback send
  complete_with_fallback-SameDb [] = record { at = λ w h. h }
  complete_with_fallback-SameDb (c ∷ cs) = record {
    at = λ w h. (settle-SameDb c _ _ _ (complete_with_fallback-SameDb cs)).at (send c messages w) h;
  }

-- The answer is one that the provider gave to some call.
abbrev pub GivenBy : {A : Type 0} → (List Call → Call → Reply A) → A → Type 0
GivenBy provider a = (before : List Call) × (call : Call) × (provider before call ≡ answered a)

module _ {A : Type 0} (provider : List Call → Call → Reply A) (messages : List Msg) where
  settle-Given :
      (c : Candidate) (more : Bool) (r : Reply A) (next : Exec (Candidate × A))
      → (before : List Call) (call : Call) → provider before call ≡ r
      → Yields (λ x. GivenBy provider x.1) next
      → Yields (λ x. GivenBy provider x.1) (settle c more r next)
  unfolding settle
  settle-Given c more (answered a) next before call e y = record { at = λ w. (before, call, e) }
  settle-Given c more (failed (permanent p)) next before call e y = record { at = λ w. tt }
  settle-Given c more (failed transient) next before call e y = record { at = λ w. y.at _ }
  settle-Given c more (failed unexpected) next before call e y = record { at = λ w. y.at _ }

  pub complete_with_fallback-Given :
      (cs : List Candidate)
      → Yields (λ x. GivenBy provider x.1) (complete_with_fallback provider cs messages)
  unfolding complete_with_fallback
  complete_with_fallback-Given [] = record { at = λ w. tt }
  complete_with_fallback-Given (c ∷ cs) = record {
    at = λ w.
        (settle-Given c _ _ _ w.calls _ refl (complete_with_fallback-Given cs)).at
          (send c messages w);
  }
