-- ===== src/Audit/Endpoints.antt =====
-- The two endpoints of app/main.py that verify a workspace's chain, and the tokens of
-- app/verify_token.py that open the public one.
use decyra_api.Common.{
  ℕ, ◌+◌, Bool, true, false, ◌&&◌, Option, none, some, List, [], ◌∷◌, ◌==◌, nat_eq, list_eq,
  if◌then◌else◌, any,
}
use decyra_api.Common.Text.{Text, codes}
use decyra_api.Audit.{Row, VerifyResult, verify_chain, workspace_rows}
use decyra_api.Invitations.{Member}
use decyra_api.World.{Outcome, ok, raised, http, unhandled}

-- `ISSUER`
abbrev pub issuer : Text
issuer = codes "decyra-audit"

-- The payload of `issue_verify_token`. Times count seconds.
pub record Payload : Type 0 where
  pub sub : Text
  pub iss : Text
  pub iat : ℕ
  pub exp : ℕ

-- What `jwt.decode` returns, of which the program reads the claim `sub`, or raises.
pub data Decoded : Type 0 where
  claims : Option Text → Decoded
  expired_signature invalid_token : Decoded

-- PyJWT with HS256: `encode payload secret`, and `decode token secret issuer now`.
pub record Jwt : Type 0 where
  pub encode : Payload → Text → Text
  pub decode : Text → Text → Text → ℕ → Decoded

pub record VerifySettings : Type 0 where
  pub audit_verify_secret : Text
  pub default_ttl_seconds : ℕ

abbrev pub is_blank : Text → Bool
is_blank [] = true
is_blank (c ∷ s) = false

-- `ttl_seconds or s.audit_verify_token_default_ttl_seconds`
abbrev pub ttl_or : Option ℕ → ℕ → ℕ
ttl_or none default = default
ttl_or (some n) default = if n == 0 then default else n

abbrev pub verify_payload : Text → ℕ → ℕ → Payload
verify_payload workspace_id now ttl = record {
  sub = workspace_id;
  iss = issuer;
  iat = now;
  exp = now + ttl;
}

module _ (jwt : Jwt) where
  unfoldable pub issue_verify_token : Text → VerifySettings → Option ℕ → ℕ → Outcome Text
  issue_verify_token workspace_id s ttl_seconds now =
      if is_blank s.audit_verify_secret
      then raised unhandled
      else ok (
          jwt.encode (verify_payload workspace_id now (ttl_or ttl_seconds s.default_ttl_seconds))
            s.audit_verify_secret)

  -- The tests that follow the decoding; `uuid_parses` is Python's `UUID(s)`.
  abbrev pub checked_sub : (Text → Bool) → Decoded → Outcome Text
  checked_sub uuid_parses expired_signature = raised (http 401)
  checked_sub uuid_parses invalid_token = raised (http 401)
  checked_sub uuid_parses (claims none) = raised (http 401)
  checked_sub uuid_parses (claims (some sub)) =
      if is_blank sub
      then raised (http 401)
      else if uuid_parses sub
      then ok sub
      else raised (http 401)

  unfoldable pub decode_verify_token : (Text → Bool) → Text → VerifySettings → ℕ → Outcome Text
  decode_verify_token uuid_parses token s now =
      if is_blank s.audit_verify_secret
      then raised (http 500)
      else checked_sub uuid_parses (jwt.decode token s.audit_verify_secret issuer now)

module _ (format_ts : ℕ → Text) (sha256_hex : Text → Text) where
  -- Row-level security names the same workspace as the query.
  unfoldable pub verify_workspace_chain : Text → List Row → VerifyResult
  unfolding workspace_rows
  verify_workspace_chain workspace_id rows =
      verify_chain format_ts sha256_hex (workspace_rows workspace_id rows)

  -- `GET /workspaces/{workspace_id}/audit/verify`
  unfoldable pub verify_workspace_audit :
      List Member → List Row → Text → Text → Outcome VerifyResult
  unfolding verify_workspace_chain
  verify_workspace_audit members rows workspace_id user_id =
      if any (λ (m : Member). m.user_id == user_id && m.workspace_id == workspace_id) members
      then ok (verify_workspace_chain workspace_id rows)
      else raised (http 403)

  -- The query casts the text of the token to a UUID, by `pg_uuid`; a text that PostgreSQL refuses raises.
  unfoldable pub chain_of_sub :
      (Text → Option Text) → List Row → Text → Outcome (Text × VerifyResult)
  unfolding verify_workspace_chain
  chain_of_sub pg_uuid rows sub = elim (pg_uuid sub) [
    | none ↦ raised unhandled
    | some workspace_id ↦ ok (sub, verify_workspace_chain workspace_id rows)
  ]

  -- `GET /v/{token}`
  unfoldable pub public_verify :
      Jwt
      → (Text → Bool)
      → (Text → Option Text)
      → List Row
      → VerifySettings
      → ℕ
      → Text
      → Outcome (Text × VerifyResult)
  unfolding decode_verify_token chain_of_sub
  public_verify jwt uuid_parses pg_uuid rows s now token =
      elim (decode_verify_token jwt uuid_parses token s now) [
        | raised e ↦ raised e
        | ok sub ↦ chain_of_sub pg_uuid rows sub
      ]
