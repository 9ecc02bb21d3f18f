-- ===== src/Pii/SteuerId/Errors.antt =====
-- What the check digit detects.
use decyra_api.Common.{ℕ, ◌≤◌, ◌<◌, ◌≡◌, ◌≢◌, ◌++◌, List, [], ◌∷◌, arith}
use decyra_api.Pii.SteuerId.{check_round, check_loop, check_digit}

abbrev pub InRange : ℕ → Type 0
InRange p = (0 < p) × (p ≤ 10)

check_round-InRange : (p d : ℕ) → InRange (check_round p d)
unfolding check_round
check_round-InRange p d = ground arith

-- A round is injective in the running product, and in the digit.
check_round-injective_left :
    (p q d : ℕ) → InRange p → InRange q → check_round p d ≡ check_round q d → p ≡ q
unfolding check_round
check_round-injective_left p q d hp hq e = ground arith

check_round-injective_right :
    (p d e : ℕ) → d < 10 → e < 10 → check_round p d ≡ check_round p e → d ≡ e
unfolding check_round
check_round-injective_right p d e hd he same = ground arith

check_loop-injective :
    (p q : ℕ) (ds : List ℕ) → InRange p → InRange q → check_loop p ds ≡ check_loop q ds → p ≡ q
unfolding check_loop
check_loop-injective p q [] hp hq e = e
check_loop-injective p q (d ∷ ds) hp hq e = check_round-injective_left p q d hp hq (
    check_loop-injective (check_round p d) (check_round q d) ds (check_round-InRange p d)
      (check_round-InRange q d) e)

check_loop-InRange : (p : ℕ) (ds : List ℕ) → InRange p → InRange (check_loop p ds)
unfolding check_loop
check_loop-InRange p [] h = h
check_loop-InRange p (d ∷ ds) h = check_loop-InRange (check_round p d) ds (check_round-InRange p d)

check_loop-injective_at :
    (p : ℕ) (xs ys : List ℕ) (d e : ℕ)
    → InRange p
    → d < 10
    → e < 10
    → check_loop p (xs ++ d ∷ ys) ≡ check_loop p (xs ++ e ∷ ys)
    → d ≡ e
unfolding check_loop
check_loop-injective_at p [] ys d e hp hd he same = check_round-injective_right p d e hd he (
    check_loop-injective (check_round p d) (check_round p e) ys (check_round-InRange p d)
      (check_round-InRange p e) same)
check_loop-injective_at p (x ∷ xs) ys d e hp hd he same =
    check_loop-injective_at (check_round p x) xs ys d e (check_round-InRange p x) hd he same

-- Replacing one digit by another changes the check digit, whatever digits stand before and after.
pub check_digit-injective_at :
    (xs ys : List ℕ) (d e : ℕ)
    → d < 10
    → e < 10
    → d ≢ e
    → check_digit (xs ++ d ∷ ys) ≢ check_digit (xs ++ e ∷ ys)
unfolding check_digit
check_digit-injective_at xs ys d e hd he differ same = differ (
    check_loop-injective_at 10 xs ys d e (omega arith) hd he (
      omega (
        arith,
        check_loop-InRange 10 (xs ++ d ∷ ys) (omega arith),
        check_loop-InRange 10 (xs ++ e ∷ ys) (omega arith),
      )))
