-- ===== src/Common/Codec.antt =====
-- `bytes.decode("utf-8")`, `bytes.decode("cp1252")` and `len(s.encode("utf-8"))`.
use Prim.Native.Nat.{ℕ, zero, suc, ◌+◌, ◌-◌, ◌*◌}
use mathlib.Core.Path.{◌≡◌, refl}
use mathlib.Core.Bool.{◌&&◌}
use mathlib.Core.List.{List, [], ◌∷◌, ◌++◌}
use mathlib.Core.Option.{Option, none, some}
use decyra_api.Common.Equality.{◌==◌, nat_eq}
use decyra_api.Common.Tests.{ltb, leb, if◌then◌else◌}
use decyra_api.Common.Text.{Text, within}

-- The decoder between two bytes: how many continuation bytes are due, the bits so far, and the range
-- that the next byte has to lie in.
record Decoder : Type 0 where
  due : ℕ
  bits : ℕ
  low : ℕ
  high : ℕ

abbrev idle : Decoder
idle = record { due = 0; bits = 0; low = 0; high = 0 }

abbrev lead : ℕ → ℕ → ℕ → ℕ → Option (Decoder × List ℕ)
lead due bits low high = some (record { due = due; bits = bits; low = low; high = high }, [])

-- A lead byte; overlong forms, surrogates and values past 0x10ffff are refused.
lead_byte : ℕ → Option (Decoder × List ℕ)
lead_byte b =
    if ltb b 0x80
    then some (idle, b ∷ [])
    else if within 0xc2 0xdf b
    then lead 1 (b - 0xc0) 0x80 0xbf
    else if within 0xe0 0xef b
    then lead 2 (b - 0xe0) (if b == 0xe0 then 0xa0 else 0x80) (if b == 0xed then 0x9f else 0xbf)
    else if within 0xf0 0xf4 b
    then lead 3 (b - 0xf0) (if b == 0xf0 then 0x90 else 0x80) (if b == 0xf4 then 0x8f else 0xbf)
    else none

utf8_step : Decoder → ℕ → Option (Decoder × List ℕ)
unfolding lead_byte
utf8_step d b =
    let value = d.bits * 64 + (b - 0x80) in
    if d.due == 0
    then lead_byte b
    else if leb d.low b && leb b d.high
    then (if d.due == 1 then some (idle, value ∷ []) else lead (d.due - 1) value 0x80 0xbf)
    else none

utf8_from : Decoder → List ℕ → Option Text
unfolding utf8_step
utf8_from d [] = if d.due == 0 then some [] else none
utf8_from d (b ∷ bs) = elim (utf8_step d b) [
  | none ↦ none
  | some (d', out) ↦ elim (utf8_from d' bs) [ none ↦ none | some s ↦ some (out ++ s) ]
]

unfoldable pub decode_utf8 : List ℕ → Option Text
unfolding utf8_from
decode_utf8 bytes = utf8_from idle bytes

-- The characters of the bytes 0x80 to 0x9f; 0 stands for a byte that cp1252 leaves undefined.
cp1252_block : List ℕ
cp1252_block =
    0x20ac ∷ 0 ∷ 0x201a ∷ 0x192 ∷ 0x201e ∷ 0x2026 ∷ 0x2020 ∷ 0x2021 ∷ 0x2c6 ∷ 0x2030 ∷ 0x160
    ∷ 0x2039 ∷ 0x152 ∷ 0 ∷ 0x17d ∷ 0 ∷ 0 ∷ 0x2018 ∷ 0x2019 ∷ 0x201c ∷ 0x201d ∷ 0x2022 ∷ 0x2013
    ∷ 0x2014 ∷ 0x2dc ∷ 0x2122 ∷ 0x161 ∷ 0x203a ∷ 0x153 ∷ 0 ∷ 0x17e ∷ 0x178 ∷ []

block_at : List ℕ → ℕ → ℕ
block_at [] i = 0
block_at (x ∷ xs) zero = x
block_at (x ∷ xs) (suc i) = block_at xs i

cp1252_char : ℕ → Option ℕ
unfolding cp1252_block block_at
cp1252_char b =
    if within 0x80 0x9f b
    then (if block_at cp1252_block (b - 0x80) == 0
        then none
        else some (block_at cp1252_block (b - 0x80)))
    else some b

unfoldable pub decode_cp1252 : List ℕ → Option Text
unfolding cp1252_char
decode_cp1252 [] = some []
decode_cp1252 (b ∷ bs) = elim (decode_cp1252 bs) [
  | none ↦ none
  | some s ↦ elim (cp1252_char b) [ none ↦ none | some c ↦ some (c ∷ s) ]
]

unfoldable pub utf8_width : ℕ → ℕ
utf8_width c = if ltb c 0x80 then 1 else if ltb c 0x800 then 2 else if ltb c 0x10000 then 3 else 4

-- `len(s.encode("utf-8"))`
unfoldable pub utf8_length : Text → ℕ
unfolding utf8_width
utf8_length [] = 0
utf8_length (c ∷ s) = utf8_width c + utf8_length s

decodes :
    (decode_utf8 (0xc3 ∷ 0xbc ∷ 0x21 ∷ 0xe2 ∷ 0x82 ∷ 0xac ∷ []) ≡ some (0xfc ∷ 0x21 ∷ 0x20ac ∷ []))
    × (decode_utf8 (0xfc ∷ []) ≡ none)
    × (decode_cp1252 (0xfc ∷ 0x80 ∷ []) ≡ some (0xfc ∷ 0x20ac ∷ []))
    × (decode_cp1252 (0x81 ∷ []) ≡ none)
unfolding decode_utf8 decode_cp1252
decodes = (refl, refl, refl, refl)
