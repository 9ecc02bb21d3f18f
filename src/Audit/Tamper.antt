-- ===== src/Audit/Tamper.antt =====
-- The audit chain of app/audit.py under a hash without collisions: what its last hash commits to.
use decyra_api.Common.{
  ℕ, ◌≡◌, refl, sym, ap, ◌∙◌, true, Option, none, some, List, [], ◌∷◌, arith, length,
}
use decyra_api.Common.Text.{Text}
use decyra_api.Common.Split.{Free}
use decyra_api.Audit.{
  AuditEventForHash, Row, canonical_string, given_or, or_else, compute_hash, to_hash, verify_chain,
}
use decyra_api.Audit.Canonical.{IsClean, Same, canonical_string-injective}
use decyra_api.Audit.Chain.{IsChain, final_hash, verify_chain-valid_iff}

-- The version and the ids of the row hold no bar: they are one of two literals, and UUIDs.
pub record IsPlain (e : AuditEventForHash) : Type 0 where
  pub version : Free b'|' e.canonical_version
  pub workspace : Free b'|' e.workspace_id
  pub user : Free b'|' e.user_id

abbrev pub AllPlain : List Row → Type 0
AllPlain [] = Unit
AllPlain (r ∷ rows) = IsPlain (to_hash r.event) × AllPlain rows

module _ (format_ts : ℕ → Text) where
  -- The rows agree, one by one, in every field that is hashed.
  abbrev pub AllSame : List Row → List Row → Type 0
  AllSame [] [] = Unit
  AllSame [] (s ∷ ss) = ⊥
  AllSame (r ∷ rs) [] = ⊥
  AllSame (r ∷ rs) (s ∷ ss) = Same format_ts (to_hash r.event) (to_hash s.event) × AllSame rs ss

or_else_nil : (h : Text) → or_else h [] ≡ h
or_else_nil [] = refl
or_else_nil (c ∷ h) = refl

module _ (format_ts : ℕ → Text) (sha256_hex : Text → Text)
    (no_bar : (n : ℕ) → Free b'|' (format_ts n)) (hex : (t : Text) → Free b'|' (sha256_hex t))
    (collision_free : (s t : Text) → sha256_hex s ≡ sha256_hex t → s ≡ t) where
  -- The stored hash of a verified row, as the next row's canonical string has it.
  stored_hash :
      (r : Row)
      → some (compute_hash format_ts sha256_hex (to_hash r.event)) ≡ r.current_hash
      → given_or r.current_hash [] ≡ compute_hash format_ts sha256_hex (to_hash r.event)
  stored_hash r e = ap (λ h. given_or h []) (sym e) ∙ or_else_nil _

  stored_hash-Free :
      (r : Row)
      → some (compute_hash format_ts sha256_hex (to_hash r.event)) ≡ r.current_hash
      → Free b'|' (given_or r.current_hash [])
  unfolding compute_hash
  stored_hash-Free r e = rw (stored_hash r e) (hex _)

  clean :
      (p : Option Text) (r : Row)
      → r.event.prev_hash ≡ p
      → Free b'|' (given_or p [])
      → IsPlain (to_hash r.event)
      → IsClean (to_hash r.event)
  clean p r e free plain = record {
    version = plain.version;
    prev = rw e free;
    workspace = plain.workspace;
    user = plain.user;
  }

  same_hash :
      (e f : AuditEventForHash)
      → compute_hash format_ts sha256_hex e ≡ compute_hash format_ts sha256_hex f
      → canonical_string format_ts e ≡ canonical_string format_ts f
  unfolding compute_hash
  same_hash e f h = collision_free _ _ h

  IsChain-AllSame :
      (p q : Option Text) (rs ss : List Row)
      → Free b'|' (given_or p [])
      → Free b'|' (given_or q [])
      → AllPlain rs
      → AllPlain ss
      → IsChain format_ts sha256_hex p rs
      → IsChain format_ts sha256_hex q ss
      → length rs ≡ length ss
      → final_hash p rs ≡ final_hash q ss
      → (given_or p [] ≡ given_or q []) × AllSame format_ts rs ss
  unfolding final_hash
  IsChain-AllSame p q [] [] fp fq _ _ _ _ n h = (ap (λ o. given_or o []) h, tt)
  IsChain-AllSame p q [] (s ∷ ss) fp fq _ _ _ _ n h = absurd (omega arith)
  IsChain-AllSame p q (r ∷ rs) [] fp fq _ _ _ _ n h = absurd (omega arith)
  IsChain-AllSame p q (r ∷ rs) (s ∷ ss) fp fq (pr, prs) (ps, pss) (er, cr, hr) (es, cs, hs) n h =
      let (current, rest) =
        IsChain-AllSame r.current_hash s.current_hash rs ss (stored_hash-Free r cr)
          (stored_hash-Free s cs) prs pss hr hs (omega arith) h in
      let same =
        canonical_string-injective format_ts no_bar (to_hash r.event) (to_hash s.event)
          (clean p r er fp pr) (clean q s es fq ps)
          (same_hash _ _ (sym (stored_hash r cr) ∙ current ∙ stored_hash s cs)) in
      (ap (λ o. given_or o []) (sym er) ∙ same.prev ∙ ap (λ o. given_or o []) es, (same, rest))

  -- Two lists of rows that the verifier accepts, of the same length and with the same last hash, agree row
  -- by row in every hashed field, if the hash has no collisions and hashes, timestamps' texts, versions
  -- and ids hold no bar.
  pub verify_chain-AllSame :
      (rs ss : List Row)
      → AllPlain rs
      → AllPlain ss
      → (verify_chain format_ts sha256_hex rs).valid ≡ true
      → (verify_chain format_ts sha256_hex ss).valid ≡ true
      → length rs ≡ length ss
      → final_hash none rs ≡ final_hash none ss
      → AllSame format_ts rs ss
  verify_chain-AllSame rs ss pr ps vr vs n h =
      (IsChain-AllSame none none rs ss tt tt pr ps
        ((verify_chain-valid_iff format_ts sha256_hex rs).0 vr)
        ((verify_chain-valid_iff format_ts sha256_hex ss).0 vs) n h).1
