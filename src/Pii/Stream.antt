-- ===== src/Pii/Stream.antt =====
-- app/pii.py: `StreamDeanonymizer`. The proofs are in the modules below.
mod Hold
pub mod Laws
use decyra_api.Common.{
  ℕ, zero, suc, ◌+◌, ◌-◌, List, Bool, true, false, not, ◌&&◌, Option, none, some, [], ◌∷◌, ◌++◌,
  ◌==◌, nat_eq, if◌then◌else◌, length, take, drop, leb,
}
use decyra_api.Common.Text.{Text}
use decyra_api.Pii.Placeholder.{Mapping, deanonymize}

-- `MAX_PH`
abbrev pub max_ph : ℕ
max_ph = 64

unfoldable pub starts_open : ℕ → Text → Bool
starts_open c [] = false
starts_open c (d ∷ s) = c == b'[' && d == b'['

-- `buf.rfind("[[")`
unfoldable pub rfind_open : Text → Option ℕ
rfind_open [] = none
rfind_open (c ∷ s) = elim (rfind_open s) [
  | some i ↦ some (suc i)
  | none ↦ if starts_open c s then some zero else none
]

-- `"]]" in s`
unfoldable pub has_close : Text → Bool
has_close [] = false
has_close (c ∷ []) = false
has_close (c ∷ d ∷ s) =
    let rest = has_close (d ∷ s) in if c == b']' && d == b']' then true else rest

-- `buf.endswith("[")`
unfoldable pub ends_open : Text → Bool
ends_open [] = false
ends_open (c ∷ []) = c == b'['
ends_open (c ∷ d ∷ s) = ends_open (d ∷ s)

unfoldable pub tail_start : Text → ℕ
tail_start buf = if ends_open buf then length buf - 1 else length buf

-- `_hold_start`
unfoldable pub hold_start : Text → ℕ
hold_start buf = elim (rfind_open buf) [
  | none ↦ tail_start buf
  | some i ↦
      if not (has_close (drop (suc (suc i)) buf)) && leb (length buf - i) max_ph
      then i
      else tail_start buf
]

pub record StreamDeanonymizer : Type 0 where
  pub mapping : Mapping
  pub buffer : Text

-- `__init__`
abbrev pub start : Mapping → StreamDeanonymizer
start m = record { mapping = m; buffer = [] }

-- The text to emit now, and the new state.
unfoldable pub feed : StreamDeanonymizer → Text → Text × StreamDeanonymizer
feed d chunk =
    let buf = d.buffer ++ chunk in
    let hold = hold_start buf in
    (deanonymize d.mapping (take hold buf), record d { buffer = drop hold buf })

unfoldable pub flush : StreamDeanonymizer → Text × StreamDeanonymizer
flush d = (deanonymize d.mapping d.buffer, record d { buffer = [] })

-- What a client receives when the chunks are fed in turn and the end is flushed.
unfoldable pub stream : StreamDeanonymizer → List Text → Text
stream d [] = (flush d).0
stream d (chunk ∷ chunks) = let (out, d') = feed d chunk in out ++ stream d' chunks
