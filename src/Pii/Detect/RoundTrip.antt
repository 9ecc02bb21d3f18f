-- ===== src/Pii/Detect/RoundTrip.antt =====
-- Strict mode is reversible: what goes out under placeholders comes back in the user's words.
use decyra_api.Common.{◌≡◌, refl, sym, ap, ◌∙◌, Option, none, some, List, [], ◌∷◌, map, All}
use decyra_api.Common.Split.{Free}
use decyra_api.Store.{Msg}
use decyra_api.Pii.Placeholder.{Mapping, deanonymize}
use decyra_api.Pii.Spans.{Span}
use decyra_api.Pii.Anonymizer.{Anonymizer, empty, anonymize}
use decyra_api.Pii.Anonymizer.Issue.{IsIssued, Extends, empty-IsIssued}
use decyra_api.Pii.Anonymizer.RoundTrip.{Encodes-Extends, deanonymize-Encodes}
use decyra_api.Pii.Anonymizer.Restore.{anonymize-Restores}
use decyra_api.Pii.Detect.{Checker, all_spans, anonymize_with, anonymize_messages}
use decyra_api.Pii.Detect.Bounds.{SpansInside, all_spans-IsWithin}

-- The message with the values of the mapping in place of its placeholders.
abbrev pub readable : Mapping → Msg → Msg
readable m x = record { role = x.role; content = deanonymize m x.content }

-- The message holds no opening bracket, and so no placeholder of its own.
abbrev pub HasNoBracket : Msg → Type 0
HasNoBracket m = Free b'[' m.content

-- The three steps that a message takes through the loop.
record Masks (k : Checker) (a : Anonymizer) (m : Msg) (ms out : List Msg) (b : Anonymizer)
    : Type 0 where
  pub spans : List Span
  pub rest : List Msg
  pub found : all_spans k m.content ≡ some spans
  pub later : anonymize_with k (anonymize a m.content spans).1 ms ≡ some (rest, b)
  pub sent : record { role = m.role; content = (anonymize a m.content spans).0 } ∷ rest ≡ out

abbrev with_first : Msg → Option (List Msg × Anonymizer) → Option (List Msg × Anonymizer)
with_first m none = none
with_first m (some (rest, c)) = some (m ∷ rest, c)

module _ (k : Checker) where
  Masks-later :
      (a : Anonymizer) (m : Msg) (ms out : List Msg) (b : Anonymizer) (spans : List Span)
      → all_spans k m.content ≡ some spans
      → (r : Option (List Msg × Anonymizer))
      → anonymize_with k (anonymize a m.content spans).1 ms ≡ r
      → with_first (record { role = m.role; content = (anonymize a m.content spans).0 }) r
        ≡ some (out, b)
      → Masks k a m ms out b
  Masks-later a m ms out b spans found none e h = absurd (cc)
  Masks-later a m ms out b spans found (some (rest, c)) e h = record {
    spans = spans;
    rest = rest;
    found = found;
    later = e ∙ cc (h);
    sent = cc (h);
  }

  Masks-found :
      (a : Anonymizer) (m : Msg) (ms out : List Msg) (b : Anonymizer)
      → (r : Option (List Span)) → all_spans k m.content ≡ r
      → ◌≡◌ {A = Option (List Msg × Anonymizer)}
          (elim r [
            | none ↦ none
            | some spans ↦
                with_first
                  (record { role = m.role; content = (anonymize a m.content spans).0 })
                  (anonymize_with k (anonymize a m.content spans).1 ms)
          ])
          (some (out, b))
      → Masks k a m ms out b
  Masks-found a m ms out b none e h = absurd (cc)
  Masks-found a m ms out b (some spans) e h =
      Masks-later a m ms out b spans e (anonymize_with k (anonymize a m.content spans).1 ms) refl h

  anonymize_with-Masks :
      (a : Anonymizer) (m : Msg) (ms out : List Msg) (b : Anonymizer)
      → anonymize_with k a (m ∷ ms) ≡ some (out, b)
      → Masks k a m ms out b
  unfolding anonymize_with
  anonymize_with-Masks a m ms out b h = Masks-found a m ms out b (all_spans k m.content) refl h

  anonymize_with-nil :
      (a b : Anonymizer) (out : List Msg)
      → anonymize_with k a [] ≡ some (out, b)
      → ([] ≡ out) × (a ≡ b)
  unfolding anonymize_with
  anonymize_with-nil a b out h = (cc (h), cc (h))

module _ (k : Checker) (inside : SpansInside k) where
  anonymize_with-Undone :
      (a b : Anonymizer) (ms out : List Msg)
      → IsIssued a
      → All HasNoBracket ms
      → anonymize_with k a ms ≡ some (out, b)
      → IsIssued b × Extends a.ph_to_value b.ph_to_value × (map (readable b.ph_to_value) out ≡ ms)
  anonymize_with-Undone a b [] out issued _ h =
      let (e, same) = anonymize_with-nil k a b out h in
      rw (sym e, sym same) (issued, λ ph v q. q, refl)
  anonymize_with-Undone a b (m ∷ ms) out issued (free, frees) h =
      let x = anonymize_with-Masks k a m ms out b h in
      let first =
        anonymize-Restores a m.content x.spans issued free
          (all_spans-IsWithin k m.content x.spans inside x.found) in
      let (issued', grown, undone) =
        anonymize_with-Undone (anonymize a m.content x.spans).1 b ms x.rest first.issued frees
          x.later in
      let shown = deanonymize-Encodes b.ph_to_value (Encodes-Extends grown first.encodes) in
      (
        issued',
        λ ph v q. grown ph v (first.grows ph v q),
        ap (map (readable b.ph_to_value)) (sym x.sent)
            ∙ ap (λ t. record { role = m.role; content = t } ∷ map (readable b.ph_to_value) x.rest)
                shown
            ∙ ap (λ r. m ∷ r) undone,
      )

-- Messages that `anonymize_messages` masks are found again, word for word, when the placeholders of
-- what it returns are replaced under the mapping of the anonymiser that it returns: for messages with
-- no opening bracket in them, and where Presidio's entities are nonempty parts of the text.
pub anonymize_messages-undone :
    (k : Checker) (messages out : List Msg) (a : Anonymizer)
    → SpansInside k
    → All HasNoBracket messages
    → anonymize_messages k messages ≡ some (out, a)
    → map (readable a.ph_to_value) out ≡ messages
unfolding anonymize_messages
anonymize_messages-undone k messages out a inside free h =
    (anonymize_with-Undone k inside empty a messages out empty-IsIssued free h).2
