-- ===== src/Pii/SteuerId.antt =====
-- app/pii.py: the ISO 7064 MOD 11,10 check of the German tax id.
pub mod Errors
use decyra_api.Common.{
  ℕ, suc, ◌+◌, ◌-◌, ◌*◌, ◌%◌, Bool, true, false, not, ◌||◌, List, [], ◌∷◌, map, ◌==◌, nat_eq,
  if◌then◌else◌, length, all, take, drop, leb, ◌≡◌, refl,
}
use decyra_api.Common.Text.{Text, codes, digit_blocks, is_digit, within}

-- `int(ch)` of a decimal digit.
block_value : ℕ → List ℕ → ℕ
block_value c [] = c - b'0'
block_value c (b ∷ bs) = if within b (b + 9) c then c - b else block_value c bs

unfoldable pub digit_value : ℕ → ℕ
unfolding block_value
digit_value c = block_value c digit_blocks

-- One round of the loop of `steuer_id_check_digit`, on the digit's value.
unfoldable pub check_round : ℕ → ℕ → ℕ
check_round product d =
    let s = (d + product) % 10 in let s' : ℕ = if s == 0 then 10 else s in (s' * 2) % 11

unfoldable pub check_loop : ℕ → List ℕ → ℕ
check_loop product [] = product
check_loop product (d ∷ ds) = check_loop (check_round product d) ds

-- On the values of the digits.
unfoldable pub check_digit : List ℕ → ℕ
check_digit ds = (11 - check_loop 10 ds) % 10

unfoldable pub steuer_id_check_digit : Text → ℕ
unfolding check_digit check_loop check_round digit_value
steuer_id_check_digit first_ten = check_digit (map digit_value first_ten)

-- `int(digits[10])`, where the length has been tested.
eleventh : Text → ℕ
eleventh [] = 0
eleventh (c ∷ _) = digit_value c

-- `is_valid_steuer_id`. Its callers pass what `\d` matched, less the spaces.
unfoldable pub is_valid_steuer_id : Text → Bool
unfolding eleventh steuer_id_check_digit
is_valid_steuer_id digits =
    if not (length digits == 11) || not (all is_digit digits)
    then false
    else steuer_id_check_digit (take 10 digits) == eleventh (drop 10 digits)

sample : is_valid_steuer_id (codes "86095742719") ≡ true
unfolding is_valid_steuer_id is_digit
sample = refl
