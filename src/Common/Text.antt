-- ===== src/Common/Text.antt =====
-- Python's `str` as a list of code points, with the character classes that the source uses.
use Prim.Native.Char.{code}
use Prim.Native.String.{String}
use decyra_api.Common.Equality.{◌==◌, nat_eq, list_eq}
use decyra_api.Common.Lists.{all}
use decyra_api.Common.Tests.{ltb, leb, if◌then◌else◌}
use Prim.Native.Nat.{ℕ, zero, suc, ◌+◌, ◌-◌, ◌/◌, ◌%◌}
use mathlib.Core.Path.{◌≡◌, refl}
use mathlib.Core.Bool.{Bool, true, false, ◌&&◌, ◌||◌}
use mathlib.Core.List.{List, [], ◌∷◌, ◌++◌}

abbrev pub Text : Type 0
Text = List ℕ

-- The code points of a literal.
abbrev pub codes : String → Text
codes String.[] = []
codes (String.◌∷◌ c s) = code c ∷ codes s

abbrev pub within : ℕ → ℕ → ℕ → Bool
within lo hi c = leb lo c && leb c hi

-- `str.isspace` of one character, which is also what `\s` matches (Unicode 14.0, Python 3.11).
unfoldable pub is_space : ℕ → Bool
is_space c =
    within 9 13 c
    || within 0x1c 0x20 c
    || c == 0x85
    || c == 0xa0
    || c == 0x1680
    || within 0x2000 0x200a c
    || within 0x2028 0x2029 c
    || c == 0x202f
    || c == 0x205f
    || c == 0x3000

-- The first digit of each block of ten decimal digits (category Nd, Unicode 14.0).
abbrev pub digit_blocks : List ℕ
digit_blocks =
    1632 ∷ 1776 ∷ 1984 ∷ 2406 ∷ 2534 ∷ 2662 ∷ 2790 ∷ 2918 ∷ 3046 ∷ 3174 ∷ 3302 ∷ 3430 ∷ 3558 ∷ 3664
    ∷ 3792 ∷ 3872 ∷ 4160 ∷ 4240 ∷ 6112 ∷ 6160 ∷ 6470 ∷ 6608 ∷ 6784 ∷ 6800 ∷ 6992 ∷ 7088 ∷ 7232
    ∷ 7248 ∷ 42528 ∷ 43216 ∷ 43264 ∷ 43472 ∷ 43504 ∷ 43600 ∷ 44016 ∷ 65296 ∷ 66720 ∷ 68912 ∷ 69734
    ∷ 69872 ∷ 69942 ∷ 70096 ∷ 70384 ∷ 70736 ∷ 70864 ∷ 71248 ∷ 71360 ∷ 71472 ∷ 71904 ∷ 72016 ∷ 72784
    ∷ 73040 ∷ 73120 ∷ 92768 ∷ 92864 ∷ 93008 ∷ 120782 ∷ 120792 ∷ 120802 ∷ 120812 ∷ 120822 ∷ 123200
    ∷ 123632 ∷ 125264 ∷ 130032 ∷ []

in_block : ℕ → List ℕ → Bool
in_block c [] = false
in_block c (b ∷ bs) = within b (b + 9) c || in_block c bs

-- What `\d` matches.
unfoldable pub is_digit : ℕ → Bool
unfolding in_block
is_digit c = within b'0' b'9' c || in_block c digit_blocks

-- `[A-Za-z]`
unfoldable pub is_ascii_letter : ℕ → Bool
is_ascii_letter c = within b'A' b'Z' c || within b'a' b'z' c

-- ASCII upper and lower case of one character.
unfoldable pub ascii_upper : ℕ → ℕ
ascii_upper c = if within b'a' b'z' c then c - 32 else c

-- `str(n)` for a natural number: the last digits are written first, on fuel.
unfoldable pub decimal_onto : ℕ → ℕ → Text → Text
decimal_onto zero n out = out
decimal_onto (suc f) n out =
    let rest = decimal_onto f (n / 10) ((b'0' + n % 10) ∷ out) in
    if ltb n 10 then (b'0' + n % 10) ∷ out else rest

unfoldable pub decimal : ℕ → Text
unfolding decimal_onto
decimal n = decimal_onto (suc n) n []

-- `sep.join(parts)`
unfoldable pub join : Text → List Text → Text
join sep [] = []
join sep (p ∷ []) = p
join sep (p ∷ q ∷ ps) = p ++ (sep ++ join sep (q ∷ ps))

-- `text.startswith(p)`
unfoldable pub starts_with : Text → Text → Bool
starts_with [] s = true
starts_with (c ∷ p) [] = false
starts_with (c ∷ p) (d ∷ s) = c == d && starts_with p s

-- `text.lstrip()` and the test `not text.strip()`
unfoldable pub lstrip : Text → Text
lstrip [] = []
lstrip (c ∷ s) = let rest = lstrip s in if is_space c then rest else c ∷ s

abbrev pub is_blank : Text → Bool
is_blank s = all is_space s

decimal_runs : (decimal 0 ≡ codes "0") × (decimal 4711 ≡ codes "4711")
unfolding decimal
decimal_runs = (refl, refl)
