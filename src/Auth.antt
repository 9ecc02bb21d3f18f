-- ===== src/Auth.antt =====
-- app/auth.py: from the Authorization header to the user.
pub mod Users
use decyra_api.Common.{
  ℕ, ◌+◌, Bool, true, false, ◌||◌, not, Option, none, some, List, [], ◌∷◌, ◌++◌, map, ◌==◌, nat_eq,
  list_eq, if◌then◌else◌,
}
use decyra_api.Common.Text.{Text, codes, within}
use decyra_api.World.{Outcome, ok, raised, http}

pub record AuthenticatedUser : Type 0 where
  pub user_id : Text
  pub email : Option Text

-- What the JWT library makes of a token: the claims `sub` and `email`, or an exception.
pub data Verified : Type 0 where
  verified : Option Text → Option Text → Verified
  expired invalid : Verified

-- PyJWT with ES256. `signing_key jwks_url token` is `none` where the token cannot be read or the key is not
-- found, and `decode token key audience issuer` verifies.
pub record Keys : Type 0 where
  pub signing_key : Text → Text → Option Text
  pub decode : Text → Text → Text → Text → Verified

pub record AuthSettings : Type 0 where
  pub supabase_url : Option Text
  pub supabase_jwt_audience : Text
  pub supabase_jwt_issuer : Option Text

abbrev pub blank : Text → Bool
blank [] = true
blank (c ∷ s) = false

-- The scheme and the token of `header.partition(" ")`.
abbrev pub partition : Text → Text × Text
partition [] = ([], [])
partition (c ∷ s) = let rest = partition s in if c == b' ' then ([], s) else (c ∷ rest.0, rest.1)

-- `str.lower` on ASCII. No other character has a letter of "bearer" as its lower case.
abbrev pub lower : Text → Text
lower s = map (λ c. if within b'A' b'Z' c then c + 32 else c) s

abbrev pub bearer_token : Text × Text → Outcome Text
bearer_token (scheme, token) =
    if not (lower scheme == codes "bearer") || blank token then raised (http 401) else ok token

-- `_extract_bearer`
unfoldable pub extract_bearer : Option Text → Outcome Text
extract_bearer none = raised (http 401)
extract_bearer (some header) =
    if blank header then raised (http 401) else bearer_token (partition header)

-- `s or default`
abbrev pub or_default : Option Text → Text → Text
or_default none default = default
or_default (some s) default = if blank s then default else s

abbrev pub issuer_of : AuthSettings → Text → Text
issuer_of s url = or_default s.supabase_jwt_issuer (url ++ codes "/auth/v1")

abbrev pub jwks_url_of : Text → Text
jwks_url_of url = url ++ codes "/auth/v1/.well-known/jwks.json"

-- The claims that the program reads.
abbrev pub UserClaims : Type 0
UserClaims = Option Text × Option Text

abbrev pub claims_or_401 : Verified → Outcome UserClaims
claims_or_401 (verified sub email) = ok (sub, email)
claims_or_401 expired = raised (http 401)
claims_or_401 invalid = raised (http 401)

abbrev pub user_of : UserClaims → Outcome AuthenticatedUser
user_of (none, email) = raised (http 401)
user_of (some sub, email) =
    if blank sub then raised (http 401) else ok (record { user_id = sub; email = email })

module _ (keys : Keys) (s : AuthSettings) where
  abbrev pub decode_with : Text → Text → Option Text → Outcome UserClaims
  decode_with token url none = raised (http 401)
  decode_with token url (some key) =
      claims_or_401 (keys.decode token key s.supabase_jwt_audience (issuer_of s url))

  abbrev pub decode_at : Text → Option Text → Outcome UserClaims
  decode_at token none = raised (http 500)
  decode_at token (some url) =
      if blank url
      then raised (http 500)
      else decode_with token url (keys.signing_key (jwks_url_of url) token)

  unfoldable pub decode_token : Text → Outcome UserClaims
  decode_token token = decode_at token s.supabase_url

  unfoldable pub get_current_user : Option Text → Outcome AuthenticatedUser
  unfolding extract_bearer decode_token
  get_current_user authorization = elim (extract_bearer authorization) [
    | raised e ↦ raised e
    | ok token ↦ elim (decode_token token) [ raised e ↦ raised e | ok claims ↦ user_of claims ]
  ]
