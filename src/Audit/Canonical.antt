-- ===== src/Audit/Canonical.antt =====
-- The canonical string of app/audit.py determines the fields that it is made of.
use decyra_api.Common.{
  ℕ, ◌≡◌, refl, sym, ap, ◌∙◌, List, [], ◌∷◌, ◌++◌, arith, append_assoc, append-nil, nat_eq, list_eq,
  list_beq_iff,
}
use decyra_api.Common.Text.{Text, codes, join}
use decyra_api.Common.Codec.{utf8_length}
use decyra_api.Common.Split.{Free, split_at, split_bytes, decimal-injective, decimal-Free}
use decyra_api.Audit.{
  AuditEventForHash, length_prefixed, canonical_string, version_parts, given_or, anonymized_text,
  v2,
}

-- The fields that stand in the string without their length hold no bar.
pub record IsClean (e : AuditEventForHash) : Type 0 where
  pub version : Free b'|' e.canonical_version
  pub prev : Free b'|' (given_or e.prev_hash [])
  pub workspace : Free b'|' e.workspace_id
  pub user : Free b'|' e.user_id

-- A length-prefixed text can be read off the head of what follows it.
length_prefixed-split :
    (s t r q : Text) → length_prefixed s ++ r ≡ length_prefixed t ++ q → (s ≡ t) × (r ≡ q)
unfolding length_prefixed
length_prefixed-split s t r q e =
    let (lengths, rest) =
      split_at b':' _ _ _ _ (decimal-Free b':' (utf8_length s) (omega arith))
        (decimal-Free b':' (utf8_length t) (omega arith))
        (sym (append_assoc _ (b':' ∷ s) r) ∙ e ∙ append_assoc _ (b':' ∷ t) q) in
    split_bytes s t r q (decimal-injective _ _ lengths) rest

behind_bar : (x y : Text) → b'|' ∷ x ≡ b'|' ∷ y → x ≡ y
behind_bar x y e = cc

module _ (format_ts : ℕ → Text) where
  -- The hashed fields of two events agree.
  pub record Same (e f : AuditEventForHash) : Type 0 where
    pub version : e.canonical_version ≡ f.canonical_version
    pub prev : given_or e.prev_hash [] ≡ given_or f.prev_hash []
    pub workspace : e.workspace_id ≡ f.workspace_id
    pub user : e.user_id ≡ f.user_id
    pub time : format_ts e.timestamp ≡ format_ts f.timestamp
    pub model : e.model ≡ f.model
    pub request : e.request_text ≡ f.request_text
    pub response : e.response_text ≡ f.response_text
    pub mode :
        e.canonical_version ≡ v2
        → given_or e.pii_mode (codes "sovereign") ≡ given_or f.pii_mode (codes "sovereign")
    pub anonymized :
        e.canonical_version ≡ v2 → anonymized_text e.anonymized ≡ anonymized_text f.anonymized

  joined : Text → List Text → Text
  joined p [] = p
  joined p (q ∷ ps) = p ++ (b'|' ∷ joined q ps)

  joined_lem : (p : Text) (ps : List Text) → join (codes "|") (p ∷ ps) ≡ joined p ps
  unfolding join joined
  joined_lem p [] = refl
  joined_lem p (q ∷ ps) = ap (λ t. p ++ (b'|' ∷ t)) (joined_lem q ps)

  suffix : List Text → Text
  suffix [] = []
  suffix (q ∷ ps) = b'|' ∷ joined q ps

  joined-suffix : (p : Text) (ps : List Text) → joined p ps ≡ p ++ suffix ps
  unfolding joined suffix
  joined-suffix p [] = sym (append-nil p)
  joined-suffix p (q ∷ ps) = refl

  version_parts-v2 :
      (e : AuditEventForHash)
      → e.canonical_version ≡ v2
      → version_parts format_ts e
        ≡ length_prefixed (given_or e.pii_mode (codes "sovereign"))
          ∷ anonymized_text e.anonymized
          ∷ []
  unfolding version_parts
  version_parts-v2 e h = rw ((list_beq_iff e.canonical_version v2).1 h) refl

  -- The end of the string: the answer, and the fields that only `v2` has.
  tail-split :
      (e f : AuditEventForHash)
      → e.canonical_version ≡ f.canonical_version
      → joined (length_prefixed e.response_text) (version_parts format_ts e)
        ≡ joined (length_prefixed f.response_text) (version_parts format_ts f)
      → (e.response_text ≡ f.response_text)
        × (suffix (version_parts format_ts e) ≡ suffix (version_parts format_ts f))
  tail-split e f v h = length_prefixed-split _ _ _ _ (
      sym (joined-suffix _ (version_parts format_ts e))
      ∙ h
      ∙ joined-suffix _ (version_parts format_ts f))

  suffix-v2 :
      (e f : AuditEventForHash)
      → e.canonical_version ≡ v2
      → f.canonical_version ≡ v2
      → suffix (version_parts format_ts e) ≡ suffix (version_parts format_ts f)
      → (given_or e.pii_mode (codes "sovereign") ≡ given_or f.pii_mode (codes "sovereign"))
        × (anonymized_text e.anonymized ≡ anonymized_text f.anonymized)
  unfolding suffix joined
  suffix-v2 e f ve vf h =
      let flat = ap suffix (sym (version_parts-v2 e ve)) ∙ h ∙ ap suffix (version_parts-v2 f vf) in
      let (mode, rest) = length_prefixed-split _ _ _ _ (behind_bar _ _ flat) in
      (mode, behind_bar _ _ rest)

  canonical_string_lem :
      (e : AuditEventForHash)
      → canonical_string format_ts e
        ≡ e.canonical_version
          ++ (b'|'
              ∷ (given_or e.prev_hash []
                  ++ (b'|'
                      ∷ (e.workspace_id
                          ++ (b'|'
                              ∷ (e.user_id
                                  ++ (b'|'
                                      ∷ (format_ts e.timestamp
                                          ++ (b'|'
                                              ∷ (length_prefixed e.model
                                                  ++ (b'|'
                                                      ∷ (length_prefixed e.request_text
                                                          ++ (b'|'
                                                            ∷ joined
                                                            (length_prefixed e.response_text)
                                                            (version_parts format_ts e))))))))))))))
  unfolding canonical_string joined
  canonical_string_lem e = joined_lem e.canonical_version (
      given_or e.prev_hash []
      ∷ e.workspace_id
      ∷ e.user_id
      ∷ format_ts e.timestamp
      ∷ length_prefixed e.model
      ∷ length_prefixed e.request_text
      ∷ length_prefixed e.response_text
      ∷ version_parts format_ts e)

  -- Two clean events with the same canonical string agree in every field that is hashed, whatever their
  -- texts hold; the mode and the masking flag are among the fields for version v2. The timestamps' texts
  -- hold no bar.
  pub canonical_string-injective :
      ((n : ℕ) → Free b'|' (format_ts n))
      → (e f : AuditEventForHash) → IsClean e
      → IsClean f
      → canonical_string format_ts e ≡ canonical_string format_ts f
      → Same e f
  canonical_string-injective no_bar e f ce cf h =
      let start = sym (canonical_string_lem e) ∙ h ∙ canonical_string_lem f in
      let (version, s1) = split_at b'|' _ _ _ _ ce.version cf.version start in
      let (prev, s2) = split_at b'|' _ _ _ _ ce.prev cf.prev s1 in
      let (workspace, s3) = split_at b'|' _ _ _ _ ce.workspace cf.workspace s2 in
      let (user, s4) = split_at b'|' _ _ _ _ ce.user cf.user s3 in
      let (time, s5) = split_at b'|' _ _ _ _ (no_bar _) (no_bar _) s4 in
      let (model, s6) = length_prefixed-split _ _ _ _ s5 in
      let (request, s7) = length_prefixed-split _ _ _ _ (behind_bar _ _ s6) in
      let (response, s8) = tail-split e f version (behind_bar _ _ s7) in
      record {
        version = version;
        prev = prev;
        workspace = workspace;
        user = user;
        time = time;
        model = model;
        request = request;
        response = response;
        mode = λ v. (suffix-v2 e f v (sym version ∙ v) s8).0;
        anonymized = λ v. (suffix-v2 e f v (sym version ∙ v) s8).1;
      }
