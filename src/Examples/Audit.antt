-- ===== src/Examples/Audit.antt =====
-- Runs of the audit chain at concrete rows.
use decyra_api.Common.{
  ℕ, ◌≡◌, ◌↔◌, refl, inl, true, Option, none, some, List, [], ◌∷◌, ◌++◌, arith, nat_eq, map,
}
use decyra_api.Common.Text.{Text, codes, decimal}
use decyra_api.Common.Codec.{utf8_length}
use decyra_api.Common.Split.{Free, split_at, decimal-injective, decimal-Free}
use decyra_api.Audit.{
  AuditEventForHash, Row, v1, canonical_string, version_parts, compute_hash, to_hash, verify_chain,
  chained, last_hash, append_event, workspace_rows,
}
use decyra_api.Audit.Canonical.{IsClean, Same, canonical_string-injective}
use decyra_api.Audit.Chain.{IsChain, verify_chain-valid_iff, trigger_canonical-mirror}
use decyra_api.Audit.Endpoints.{verify_workspace_chain}
use decyra_api.Audit.Inserts.{Written, empty, inserted, verify_workspace_chain-Written}
use decyra_api.Audit.Tamper.{AllSame, AllPlain, verify_chain-AllSame}

-- A hash without collisions, whose digests hold no bar: each character in decimal, closed by a colon.
spelled : Text → Text
spelled [] = []
spelled (c ∷ s) = decimal c ++ (b':' ∷ spelled s)

Free-append : (d : ℕ) (x y : Text) → Free d x → Free d y → Free d (x ++ y)
Free-append d [] y _ h = h
Free-append d (c ∷ x) y (p, q) h = (p, Free-append d x y q h)

spelled-Free : (s : Text) → Free b'|' (spelled s)
unfolding spelled
spelled-Free [] = tt
spelled-Free (c ∷ s) =
    Free-append b'|' (decimal c) _ (decimal-Free b'|' c (omega arith)) (refl, spelled-Free s)

closed_nonempty : (x y : Text) → x ++ (b':' ∷ y) ≡ [] → ⊥
closed_nonempty [] y e = cc
closed_nonempty (d ∷ x) y e = cc

spelled-injective : (s t : Text) → spelled s ≡ spelled t → s ≡ t
unfolding spelled
spelled-injective [] [] e = refl
spelled-injective [] (d ∷ t) e = absurd (closed_nonempty (decimal d) (spelled t) (cc))
spelled-injective (c ∷ s) [] e = absurd (closed_nonempty (decimal c) (spelled s) e)
spelled-injective (c ∷ s) (d ∷ t) e =
    let (number, rest) =
      split_at b':' (decimal c) (decimal d) _ _ (decimal-Free b':' c (omega arith))
        (decimal-Free b':' d (omega arith)) e in
    cc (decimal-injective c d number, spelled-injective s t rest)

abbrev asked : AuditEventForHash
asked = record {
  prev_hash = none;
  workspace_id = codes "ws";
  user_id = codes "ada";
  timestamp = 7;
  model = codes "eu";
  request_text = codes "a|b";
  response_text = codes "c";
  canonical_version = v1;
  pii_mode = none;
  anonymized = none;
}

abbrev later : AuditEventForHash
later = record asked { timestamp = 9 }

abbrev elsewhere : AuditEventForHash
elsewhere = record asked { workspace_id = codes "other"; timestamp = 3 }

abbrev rows : List Row
rows =
    append_event decimal spelled (append_event decimal spelled [] (codes "b") asked) (codes "a")
      later

-- Between the two, a row of another workspace with an earlier timestamp.
abbrev first_row : List Row
first_row = append_event decimal spelled [] (codes "b") asked

abbrev two_rows : List Row
two_rows = append_event decimal spelled first_row (codes "c") elsewhere

abbrev three_rows : List Row
three_rows = append_event decimal spelled two_rows (codes "a") later

asked-IsClean : (m : Option Text) → IsClean (record asked { pii_mode = m })
asked-IsClean m = record {
  version = (refl, (refl, tt));
  prev = tt;
  workspace = (refl, (refl, tt));
  user = (refl, (refl, (refl, tt)));
}

-- The formula of v1 leaves out the mode.
canonical_string-injective_example :
    Same decimal asked (record asked { pii_mode = some (codes "strict") })
unfolding canonical_string version_parts
canonical_string-injective_example =
    canonical_string-injective decimal (λ n. decimal-Free b'|' n (omega arith)) asked
      (record asked { pii_mode = some (codes "strict") }) (asked-IsClean none)
      (asked-IsClean (some (codes "strict"))) refl

verify_chain-valid_iff_example :
    ((verify_chain decimal spelled rows).valid ≡ true) ↔ IsChain decimal spelled none rows
verify_chain-valid_iff_example = verify_chain-valid_iff decimal spelled rows

trigger_canonical-mirror_example :
    (chained decimal spelled (codes "b") none asked).current_hash
    ≡ some (
        compute_hash decimal spelled
          (to_hash (chained decimal spelled (codes "b") none asked).event))
trigger_canonical-mirror_example =
    trigger_canonical-mirror decimal spelled (codes "b") none asked (inl refl)

three_rows-Written : Written decimal spelled three_rows
unfolding append_event chained
three_rows-Written =
    inserted two_rows (codes "a") later (inl refl) (λ _. refl, (λ _. refl, tt))
      (inserted first_row (codes "c") elsewhere (inl refl) (λ e. cc, tt)
        (inserted [] (codes "b") asked (inl refl) tt empty))

verify_workspace_chain-Written_example :
    (verify_workspace_chain decimal spelled (codes "ws") three_rows).valid ≡ true
verify_workspace_chain-Written_example =
    verify_workspace_chain-Written decimal spelled three_rows three_rows-Written (codes "ws")

-- The rows of one workspace are chained past the row of the other.
linked_past :
    map (λ (r : Row). r.event.timestamp) (workspace_rows (codes "ws") three_rows) ≡ 7 ∷ 9 ∷ []
unfolding workspace_rows append_event chained
linked_past = refl

rows_accepted : (verify_chain decimal spelled rows).valid ≡ true
unfolding verify_chain append_event chained last_hash spelled decimal utf8_length
rows_accepted = refl

rows-AllPlain : AllPlain rows
unfolding append_event chained last_hash
rows-AllPlain = (
  record {
    version = (refl, (refl, tt));
    workspace = (refl, (refl, tt));
    user = (refl, (refl, (refl, tt)));
  },
  (
    record {
      version = (refl, (refl, tt));
      workspace = (refl, (refl, tt));
      user = (refl, (refl, (refl, tt)));
    },
    tt,
  ),
)

verify_chain-AllSame_example : AllSame decimal rows rows
verify_chain-AllSame_example =
    verify_chain-AllSame decimal spelled (λ n. decimal-Free b'|' n (omega arith)) spelled-Free
      spelled-injective rows rows rows-AllPlain rows-AllPlain rows_accepted rows_accepted refl refl
