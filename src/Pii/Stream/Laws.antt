-- ===== src/Pii/Stream/Laws.antt =====
-- The stream of a placeholder text is its de-anonymisation, however the text is cut into chunks.
use decyra_api.Common.{
  ◌≤◌, ◌≡◌, ◌⊎◌, sym, ap, ◌∙◌, List, some, [], ◌∷◌, ◌++◌, append_assoc, append-nil, arith, inl, inr,
  length, take, drop, concat, length-take, length-drop, take-append-drop, prefix_of_append,
  Option-cases, Bool-cases, ltb,
}
use decyra_api.Common.Text.{Text}
use decyra_api.Pii.Placeholder.{Hit, match_at, whole, deanonymize}
use decyra_api.Pii.Placeholder.Match.{match_at-IsMatch, match_at_intro}
use decyra_api.Pii.Placeholder.Scan.{NoStraddle, deanonymize-append}
use decyra_api.Pii.Stream.{max_ph, hold_start, tail_start, StreamDeanonymizer, feed, flush, stream}
use decyra_api.Pii.Stream.Hold.{
  hold_start-cons, hold_start-le-length, hold_start_of_prefix, le-hold_start,
}

-- Every match in the text has at most `max_ph` characters.
abbrev pub IsShort : Text → Type 0
IsShort [] = Unit
IsShort (c ∷ s) = ((h : Hit) → match_at (c ∷ s) ≡ some h → length (whole h) ≤ max_ph) × IsShort s

IsShort-append : (x y : Text) → IsShort (x ++ y) → IsShort y
IsShort-append [] y h = h
IsShort-append (c ∷ x) y (_, h) = IsShort-append x y h

-- A match at the head of the text that has arrived is held whole, or lies before the cut.
covered :
    (b z : Text) (h : Hit)
    → match_at (b ++ z) ≡ some h
    → length (whole h) ≤ max_ph
    → (hold_start b ≡ 0) ⊎ (length (whole h) ≤ hold_start b)
covered b z h e short =
    let m = match_at-IsMatch (b ++ z) e in
    elim (Bool-cases (ltb (length b) (length (whole h)))) [
      | inl less ↦
          let (q, spelled) = prefix_of_append b z (whole h) m.rest m.spelled (ground arith) in
          inl (hold_start_of_prefix h b q m.no_open m.no_close short spelled (ground arith))
      | inr more ↦
          let (q, spelled) = prefix_of_append (whole h) m.rest b z (sym m.spelled) (ground arith) in
          inr (rw spelled (le-hold_start h q m.no_open))
    ]

match_before_cut :
    (x y : Text) (h : Hit)
    → match_at (x ++ y) ≡ some h
    → length (whole h) ≤ length x
    → match_at x ≡ some h
match_before_cut x y h e fits =
    let m = match_at-IsMatch (x ++ y) e in
    let (q, spelled) = prefix_of_append (whole h) m.rest x y (sym m.spelled) fits in
    rw spelled (match_at_intro h q m.no_close m.body)

hold-NoStraddle :
    (b z : Text)
    → IsShort (b ++ z)
    → NoStraddle (take (hold_start b) b) (drop (hold_start b) b ++ z)
hold-NoStraddle [] z short =
    let none_held : hold_start [] ≡ 0 = omega (arith, hold_start-le-length []) in rw none_held tt
hold-NoStraddle (c ∷ b) z (first, short) = elim (hold_start-cons c b) [
  | inl e ↦ rw e tt
  | inr e ↦
      let k = hold_start b in
      let whole_text : take k b ++ (drop k b ++ z) ≡ b ++ z =
        sym (append_assoc (take k b) (drop k b) z)
        ∙ ap (λ (s : Text). s ++ z) (take-append-drop k b) in
      rw e (
        λ missed. rw whole_text (elim (Option-cases (match_at (c ∷ (b ++ z)))) [
          | inl n ↦ n
          | inr (h, hit) ↦ elim (covered (c ∷ b) z h hit (first h hit)) [
            | inl zero_held ↦ absurd (omega arith)
            | inr fits ↦
                let found : match_at (c ∷ take k b) ≡ some h =
                  match_before_cut (c ∷ take k b) (drop k b ++ z) h (rw whole_text hit)
                    (omega (arith, length-take k b, hold_start-le-length b)) in
                cc
          ]
        ]),
        hold-NoStraddle b z short,
      )
]

-- Feeding a text in chunks and flushing emits what de-anonymising the whole text at once gives, however the
-- chunks are cut, if no match of the placeholder pattern in the text is longer than `max_ph`.
pub stream-deanonymize :
    (d : StreamDeanonymizer) (chunks : List Text)
    → IsShort (d.buffer ++ concat chunks)
    → stream d chunks ≡ deanonymize d.mapping (d.buffer ++ concat chunks)
unfolding stream feed flush
stream-deanonymize d [] short = rw append-nil
stream-deanonymize d (chunk ∷ chunks) short =
    let b = d.buffer ++ chunk in
    let k = hold_start b in
    let z = concat chunks in
    let text : b ++ z ≡ d.buffer ++ (chunk ++ z) = append_assoc d.buffer chunk z in
    let short_b : IsShort (b ++ z) = rw text short in
    let parts : take k b ++ (drop k b ++ z) ≡ b ++ z =
      sym (append_assoc (take k b) (drop k b) z)
      ∙ ap (λ (s : Text). s ++ z) (take-append-drop k b) in
    let rest : IsShort (drop k b ++ z) =
      IsShort-append (take k b) (drop k b ++ z) (rw parts short_b) in
    let later = stream-deanonymize (record d { buffer = drop k b }) chunks rest in
    ap (λ (s : Text). deanonymize d.mapping (take k b) ++ s) later
    ∙ sym (deanonymize-append d.mapping (take k b) (drop k b ++ z) (hold-NoStraddle b z short_b))
    ∙ ap (deanonymize d.mapping) (parts ∙ text)

-- Whatever is fed, at most `max_ph` characters are withheld from the client.
pub feed-buffer-le :
    (d : StreamDeanonymizer) (chunk : Text) → length (feed d chunk).1.buffer ≤ max_ph
unfolding feed hold_start tail_start
feed-buffer-le d chunk = let b = d.buffer ++ chunk in ground (arith, length-drop (hold_start b) b)
