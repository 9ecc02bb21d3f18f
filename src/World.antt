-- ===== src/World.antt =====
-- The state that a request runs against and the exceptions that it may raise: the database, the calls
-- that have gone out to model providers, and the entries of the `decyra.errors` log.
pub mod Keeps
use decyra_api.Common.{
  ◌≡◌, refl, ◌⊎◌, inl, inr, ℕ, Bool, true, false, Option, none, some, List, [], ◌∷◌, ◌++◌,
  if◌then◌else◌,
}
use decyra_api.Common.Text.{Text}
use decyra_api.Store.{Db, Model, Msg}

-- `PERMANENT_ERRORS`
pub data Permanent : Type 0 where
  bad_request authentication not_found permission_denied : Permanent

-- `FALLBACK_ERRORS` and every other exception are handled alike.
pub data CallError : Type 0 where
  permanent : Permanent → CallError
  transient unexpected : CallError

pub record Call : Type 0 where
  pub model : Text
  pub row : Model
  pub messages : List Msg

-- An entry of the `decyra.errors` log; the level is ERROR if `is_error`, else WARNING.
pub record Entry : Type 0 where
  pub is_error : Bool
  pub model : Text
  pub provider : Text
  pub error : CallError
  pub fallback_used : Bool

pub record World : Type 0 where
  pub db : Db
  pub calls : List Call
  pub errors : List Entry

pub data Exc : Type 0 where
  http : ℕ → Exc
  providers_unavailable : Exc
  provider_error : Permanent → Exc
  embedding_error : Exc
  check_unavailable : Exc
  -- an exception that no handler of the program catches: status 500
  unhandled : Exc

pub data Outcome {ℓ} (A : Type ℓ) : Type ℓ where
  ok : A → Outcome A
  raised : Exc → Outcome A

pub Outcome-cases {ℓ} :
    {A : Type ℓ} (o : Outcome A) → ((e : Exc) × (o ≡ raised e)) ⊎ ((a : A) × (o ≡ ok a))
Outcome-cases (ok a) = inr (a, refl)
Outcome-cases (raised e) = inl (e, refl)

-- An operation that may raise; what it did to the world before stays done.
abbrev pub Exec : Type 0 → Type 0
Exec A = World → Outcome A × World

infixl 5 ◌>>=◌ ◌>>◌
unfoldable pub ◌>>=◌ : {A B : Type 0} → Exec A → (A → Exec B) → Exec B
◌>>=◌ m f w = let (r, w') = m w in elim r [ ok a ↦ f a w' | raised e ↦ (raised e, w') ]

unfoldable pub ◌>>◌ : {B : Type 0} → Exec (Unit {0}) → Exec B → Exec B
unfolding ◌>>=◌
m >> k = m >>= λ _. k

unfoldable pub pure : {A : Type 0} → A → Exec A
pure a w = (ok a, w)

unfoldable pub raise : {A : Type 0} → Exc → Exec A
raise e w = (raised e, w)

-- `try: m except e: handler(e)`
unfoldable pub catch : {A : Type 0} → Exec A → (Exc → Exec A) → Exec A
catch m handler w = let (r, w') = m w in elim r [ ok a ↦ (ok a, w') | raised e ↦ handler e w' ]

unfoldable pub gets : {A : Type 0} → (World → A) → Exec A
gets f w = (ok (f w), w)

-- A write transaction that does not raise.
unfoldable pub transact : {A : Type 0} → (Db → A × Db) → Exec A
transact f w = let (a, db) = f w.db in (ok a, record w { db = db })

unfoldable pub require : Bool → Exc → Exec (Unit {0})
require b e w = if b then (ok tt, w) else (raised e, w)

-- An `Option` that raises when it is `none`.
unfoldable pub or_raise : {A : Type 0} → Option A → Exc → Exec A
or_raise none e w = (raised e, w)
or_raise (some a) e w = (ok a, w)
