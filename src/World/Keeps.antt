-- ===== src/World/Keeps.antt =====
-- Invariants of operations: one rule for each way to build an operation.
use decyra_api.Common.{◌≡◌, refl, Bool, true, false, Option, none, some}
use decyra_api.World.{
  World, Outcome, ok, raised, Exc, Exec, ◌>>=◌, ◌>>◌, pure, raise, catch, gets, require, or_raise,
}

-- Whether it returns or raises, the operation keeps the predicate.
pub record Keeps (P : World → Type 0) {A : Type 0} (m : Exec A) : Type 0 where
  pub at : (w : World) → P w → P (m w).1

module _ {P : World → Type 0} where
  pub Keeps-pure : {A : Type 0} (a : A) → Keeps P (pure a)
  unfolding pure
  Keeps-pure a = record { at = λ w h. h }

  pub Keeps-raise : {A : Type 0} (e : Exc) → Keeps P (raise {A = A} e)
  unfolding raise
  Keeps-raise e = record { at = λ w h. h }

  pub Keeps-gets : {A : Type 0} (f : World → A) → Keeps P (gets f)
  unfolding gets
  Keeps-gets f = record { at = λ w h. h }

  pub Keeps-require : (b : Bool) (e : Exc) → Keeps P (require b e)
  unfolding require
  Keeps-require true e = record { at = λ w h. h }
  Keeps-require false e = record { at = λ w h. h }

  pub Keeps-or_raise : {A : Type 0} (o : Option A) (e : Exc) → Keeps P (or_raise o e)
  unfolding or_raise
  Keeps-or_raise none e = record { at = λ w h. h }
  Keeps-or_raise (some a) e = record { at = λ w h. h }

  pub Keeps-bind :
      {A B : Type 0} (m : Exec A) (f : A → Exec B)
      → Keeps P m
      → ((a : A) → Keeps P (f a))
      → Keeps P (m >>= f)
  unfolding ◌>>=◌
  Keeps-bind {A} {B} m f km kf = record { at = λ w h. after (m w).0 (m w).1 (km.at w h) }
    where
      after :
          (r : Outcome A) (w' : World)
          → P w'
          → P (elim r as (λ _. Outcome B × World) [ ok a ↦ f a w' | raised e ↦ (raised e, w') ]).1
      after (ok a) w' h = (kf a).at w' h
      after (raised e) w' h = h

  pub Keeps-then :
      {B : Type 0} (m : Exec (Unit {0})) (k : Exec B) → Keeps P m → Keeps P k → Keeps P (m >> k)
  unfolding ◌>>◌
  Keeps-then m k km kk = Keeps-bind m (λ _. k) km (λ _. kk)

  pub Keeps-catch :
      {A : Type 0} (m : Exec A) (handler : Exc → Exec A)
      → Keeps P m
      → ((e : Exc) → Keeps P (handler e))
      → Keeps P (catch m handler)
  unfolding catch
  Keeps-catch {A} m handler km kh = record { at = λ w h. after (m w).0 (m w).1 (km.at w h) }
    where
      after :
          (r : Outcome A) (w' : World)
          → P w'
          → P (elim r as (λ _. Outcome A × World) [ ok a ↦ (ok a, w') | raised e ↦ handler e w' ]).1
      after (ok a) w' h = h
      after (raised e) w' h = (kh e).at w' h

pub ruleset keeps_rules = (
  Keeps-pure, Keeps-raise, Keeps-gets, Keeps-require, Keeps-or_raise, Keeps-bind, Keeps-then,
  Keeps-catch,
)

-- What holds of a result, if there is one.
abbrev pub Ensures : {A : Type 0} → (A → Type 0) → Outcome A → Type 0
Ensures Q (ok a) = Q a
Ensures Q (raised e) = Unit

pub record Yields {A : Type 0} (Q : A → Type 0) (m : Exec A) : Type 0 where
  pub at : (w : World) → Ensures Q (m w).0

pub Yields-pure : {A : Type 0} {Q : A → Type 0} (a : A) → Q a → Yields Q (pure a)
unfolding pure
Yields-pure a q = record { at = λ w. q }

module _ {A B : Type 0} {Q : B → Type 0} where
  pub Yields-bind : (m : Exec A) (f : A → Exec B) → ((a : A) → Yields Q (f a)) → Yields Q (m >>= f)
  unfolding ◌>>=◌
  Yields-bind m f yf = record { at = λ w. after (m w).0 (m w).1 }
    where
      after :
          (r : Outcome A) (w' : World)
          → Ensures Q
              (elim r as (λ _. Outcome B × World) [ ok a ↦ f a w' | raised e ↦ (raised e, w') ]).0
      after (ok a) w' = (yf a).at w'
      after (raised e) w' = tt

pub Yields-then :
    {B : Type 0} {Q : B → Type 0} (m : Exec (Unit {0})) (k : Exec B)
    → Yields Q k
    → Yields Q (m >> k)
unfolding ◌>>◌
Yields-then m k yk = Yields-bind m (λ _. k) (λ _. yk)

-- The continuation of an operation may use what its result is known to satisfy.
module _ {P : World → Type 0} {A B : Type 0} (Q : A → Type 0) where
  pub Keeps-bind-Yields :
      (m : Exec A) (f : A → Exec B)
      → Keeps P m
      → Yields Q m
      → ((a : A) → Q a → Keeps P (f a))
      → Keeps P (m >>= f)
  unfolding ◌>>=◌
  Keeps-bind-Yields m f km ym kf = record {
    at = λ w h. after (m w).0 (m w).1 (ym.at w) (km.at w h);
  }
    where
      after :
          (r : Outcome A) (w' : World)
          → Ensures Q r
          → P w'
          → P (elim r as (λ _. Outcome B × World) [ ok a ↦ f a w' | raised e ↦ (raised e, w') ]).1
      after (ok a) w' q h = (kf a q).at w' h
      after (raised e) w' q h = h

pub Yields-bind-Yields :
    {A B : Type 0} (Q : A → Type 0) (R : B → Type 0) (m : Exec A) (f : A → Exec B)
    → Yields Q m
    → ((a : A) → Q a → Yields R (f a))
    → Yields R (m >>= f)
unfolding ◌>>=◌
Yields-bind-Yields {A} {B} Q R m f ym yf = record { at = λ w. after (m w).0 (m w).1 (ym.at w) }
  where
    after :
        (r : Outcome A) (w' : World)
        → Ensures Q r
        → Ensures R
            (elim r as (λ _. Outcome B × World) [ ok a ↦ f a w' | raised e ↦ (raised e, w') ]).0
    after (ok a) w' q = (yf a q).at w'
    after (raised e) w' q = tt

-- The operation returns, and raises nothing.
pub record Returns {A : Type 0} (m : Exec A) : Type 0 where
  pub at : (w : World) → (a : A) × ((m w).0 ≡ ok a)

pub Returns-pure : {A : Type 0} (a : A) → Returns (pure a)
unfolding pure
Returns-pure a = record { at = λ w. (a, refl) }

pub Returns-bind :
    {A B : Type 0} (m : Exec A) (f : A → Exec B)
    → Returns m
    → ((a : A) → Returns (f a))
    → Returns (m >>= f)
unfolding ◌>>=◌
Returns-bind {A} {B} m f rm rf = record { at = λ w. after (m w).0 (m w).1 (rm.at w) }
  where
    after :
        (r : Outcome A) (w' : World)
        → ((a : A) × (r ≡ ok a))
        → (b : B) × ((elim r as (λ _. Outcome B × World) [
          | ok a ↦ f a w'
          | raised e ↦ (raised e, w')
        ]).0
            ≡ ok b)
    after (ok a) w' q = (rf a).at w'
    after (raised e) w' (a, q) = absurd (cc)
