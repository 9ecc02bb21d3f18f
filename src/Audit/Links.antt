-- ===== src/Audit/Links.antt =====
-- What a verify link shows, and for how long.
use decyra_api.Common.{
  ℕ, ◌+◌, ◌≡◌, refl, sym, ap, ◌∙◌, inl, inr, Bool, true, false, ◌⊎◌, Option, none, some, List, [],
  ◌∷◌, arith, nat_eq, if◌then◌else◌, Bool-cases,
}
use decyra_api.Common.Tests.{leb, ltb}
use decyra_api.Common.Text.{Text}
use decyra_api.Audit.{Row}
use decyra_api.Audit.Endpoints.{
  issuer, Payload, Decoded, claims, expired_signature, invalid_token, Jwt, VerifySettings, is_blank,
  ttl_or, verify_payload, issue_verify_token, checked_sub, decode_verify_token, chain_of_sub,
  public_verify, verify_workspace_chain,
}
use decyra_api.World.{Outcome, ok, raised, Exc, http, unhandled}

-- PyJWT's promise for a token signed with the same secret and read for the same issuer: until its expiry
-- the claims, and from then on `ExpiredSignatureError`.
pub record Honours (jwt : Jwt) : Type 0 where
  pub fresh :
      (p : Payload) (secret : Text) (now : ℕ)
      → leb p.iat now ≡ true
      → ltb now p.exp ≡ true
      → jwt.decode (jwt.encode p secret) secret p.iss now ≡ claims (some p.sub)
  pub stale :
      (p : Payload) (secret : Text) (now : ℕ)
      → leb p.exp now ≡ true
      → jwt.decode (jwt.encode p secret) secret p.iss now ≡ expired_signature

module _ (jwt : Jwt) (uuid_parses : Text → Bool) where
  decode_of :
      (token : Text) (s : VerifySettings) (now : ℕ) (d : Decoded)
      → is_blank s.audit_verify_secret ≡ false
      → jwt.decode token s.audit_verify_secret issuer now ≡ d
      → decode_verify_token jwt uuid_parses token s now ≡ checked_sub jwt uuid_parses d
  unfolding decode_verify_token
  decode_of token s now d b e = rw (b, e) refl

  -- What a token is worth: the claim of a decoded token that names a UUID, or status 401.
  abbrev pub Worth : Decoded → Outcome Text → Type 0
  Worth d o =
      (o ≡ raised (http 401))
      ⊎ ((sub : Text) × (d ≡ claims (some sub)) × (uuid_parses sub ≡ true) × (o ≡ ok sub))

  checked_sub-Worth : (d : Decoded) → Worth d (checked_sub jwt uuid_parses d)
  checked_sub-Worth expired_signature = inl refl
  checked_sub-Worth invalid_token = inl refl
  checked_sub-Worth (claims none) = inl refl
  checked_sub-Worth (claims (some [])) = inl refl
  checked_sub-Worth (claims (some (c ∷ sub))) = elim (Bool-cases (uuid_parses (c ∷ sub))) [
    | inl e ↦ inr (c ∷ sub, refl, e, rw e refl)
    | inr e ↦ inl (rw e refl)
  ]

  -- With a secret configured, a token is answered by status 401 or by the claim `sub` of what it decodes
  -- to, and then that is a UUID; without a secret every token is answered by status 500.
  pub decode_verify_token-Worth :
      (token : Text) (s : VerifySettings) (now : ℕ)
      → ((is_blank s.audit_verify_secret ≡ true)
          × (decode_verify_token jwt uuid_parses token s now ≡ raised (http 500)))
        ⊎ ((is_blank s.audit_verify_secret ≡ false)
            × Worth
                (jwt.decode token s.audit_verify_secret issuer now)
                (decode_verify_token jwt uuid_parses token s now))
  unfolding decode_verify_token
  decode_verify_token-Worth token s now = elim (Bool-cases s_blank) [
    | inl b ↦ inl (b, rw b refl)
    | inr b ↦ inr (b, rw b (checked_sub-Worth (jwt.decode token s.audit_verify_secret issuer now)))
  ]
    where
      s_blank : Bool
      s_blank = is_blank s.audit_verify_secret

  checked_uuid :
      (sub : Text)
      → is_blank sub ≡ false
      → uuid_parses sub ≡ true
      → checked_sub jwt uuid_parses (claims (some sub)) ≡ ok sub
  checked_uuid sub b e = rw (b, e) refl

raised_not_ok : {A : Type 0} (e : Exc) (a : A) → raised e ≡ ok a → ⊥
raised_not_ok e a h = cc

-- Only with a secret is a token issued, and it is the signed payload.
issue_verify_token-signed :
    (jwt : Jwt) (workspace_id : Text) (s : VerifySettings) (ttl : Option ℕ) (issued : ℕ)
    (token : Text)
    → issue_verify_token jwt workspace_id s ttl issued ≡ ok token
    → (is_blank s.audit_verify_secret ≡ false)
      × (jwt.encode
            (verify_payload workspace_id issued (ttl_or ttl s.default_ttl_seconds))
            s.audit_verify_secret
          ≡ token)
unfolding issue_verify_token
issue_verify_token-signed jwt workspace_id s ttl issued token h =
    elim (Bool-cases (is_blank s.audit_verify_secret)) [
      | inl b ↦
          let e : raised unhandled ≡ ok token = sym (ap (λ c. answer c) b) ∙ h in
          absurd (raised_not_ok unhandled token e)
      | inr b ↦ let e : ok _ ≡ ok token = sym (ap (λ c. answer c) b) ∙ h in (b, cc (e))
    ]
  where
    answer : Bool → Outcome Text
    answer b =
        if b
        then raised unhandled
        else ok (
            jwt.encode (verify_payload workspace_id issued (ttl_or ttl s.default_ttl_seconds))
              s.audit_verify_secret)

module _ (format_ts : ℕ → Text) (sha256_hex : Text → Text) where
  public_verify-of :
      (jwt : Jwt) (uuid_parses : Text → Bool) (pg_uuid : Text → Option Text) (rows : List Row)
      (s : VerifySettings) (now : ℕ) (token : Text) (o : Outcome Text)
      → decode_verify_token jwt uuid_parses token s now ≡ o
      → public_verify format_ts sha256_hex jwt uuid_parses pg_uuid rows s now token ≡ elim o [
        | raised e ↦ raised e
        | ok sub ↦ chain_of_sub format_ts sha256_hex pg_uuid rows sub
      ]
  unfolding public_verify
  public_verify-of jwt uuid_parses pg_uuid rows s now token o e = rw (e, public_verify) refl

  chain_of_sub-uuid :
      (pg_uuid : Text → Option Text) (rows : List Row) (ws : Text)
      → pg_uuid ws ≡ some ws
      → chain_of_sub format_ts sha256_hex pg_uuid rows ws
        ≡ ok (ws, verify_workspace_chain format_ts sha256_hex ws rows)
  unfolding chain_of_sub
  chain_of_sub-uuid pg_uuid rows ws p = rw (p, chain_of_sub) refl

  -- A link issued for a workspace shows the verification of that workspace's rows from its issue until
  -- its lifetime is over (the given one, or the default where none or 0 is given), and status 401 from
  -- then on. The JWT library honours its expiry, and the id is in the form that PostgreSQL gives a UUID.
  pub public_verify-Lasts :
      (jwt : Jwt)
      → Honours jwt
      → (uuid_parses : Text → Bool) (pg_uuid : Text → Option Text) (rows : List Row)
        (s : VerifySettings) (workspace_id : Text) (ttl : Option ℕ) (issued now : ℕ) (token : Text)
      → is_blank workspace_id ≡ false
      → uuid_parses workspace_id ≡ true
      → pg_uuid workspace_id ≡ some workspace_id
      → issue_verify_token jwt workspace_id s ttl issued ≡ ok token
      → leb issued now ≡ true
      → public_verify format_ts sha256_hex jwt uuid_parses pg_uuid rows s now token ≡ (
          if ltb now (issued + ttl_or ttl s.default_ttl_seconds)
          then ok (workspace_id, verify_workspace_chain format_ts sha256_hex workspace_id rows)
          else raised (http 401))
  public_verify-Lasts jwt honours uuid_parses pg_uuid rows s ws ttl issued now token b u p i l =
      let (secret, signed) = issue_verify_token-signed jwt ws s ttl issued token i in
      let payload = verify_payload ws issued (ttl_or ttl s.default_ttl_seconds) in
      elim (Bool-cases (ltb now (issued + ttl_or ttl s.default_ttl_seconds))) [
        | inl q ↦
            let d : jwt.decode token s.audit_verify_secret issuer now ≡ claims (some ws) =
              ap (λ t. jwt.decode t s.audit_verify_secret issuer now) (sym signed)
              ∙ honours.fresh payload s.audit_verify_secret now l q in
            rw q (
              public_verify-of jwt uuid_parses pg_uuid rows s now token (ok ws) (
                decode_of jwt uuid_parses token s now _ secret d
                ∙ checked_uuid jwt uuid_parses ws b u)
              ∙ chain_of_sub-uuid pg_uuid rows ws p)
        | inr q ↦
            let d : jwt.decode token s.audit_verify_secret issuer now ≡ expired_signature =
              ap (λ t. jwt.decode t s.audit_verify_secret issuer now) (sym signed)
              ∙ honours.stale payload s.audit_verify_secret now (ground (arith, q)) in
            rw q (
              public_verify-of jwt uuid_parses pg_uuid rows s now token (raised (http 401))
                (decode_of jwt uuid_parses token s now _ secret d))
      ]
