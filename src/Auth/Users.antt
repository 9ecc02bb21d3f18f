-- ===== src/Auth/Users.antt =====
-- Who is taken for an authenticated user.
use decyra_api.Common.{
  ℕ, ◌≡◌, refl, sym, ap, ◌∙◌, inl, inr, Bool, true, false, ◌||◌, not, Option, none, some, [], ◌∷◌,
  ◌++◌, ◌==◌, list_eq, list_beq_iff, nat_eq, arith, if◌then◌else◌, Bool-cases,
}
use decyra_api.Common.Text.{Text, codes}
use decyra_api.World.{Exc, Outcome, ok, raised, http}
use decyra_api.Auth.{
  AuthenticatedUser, Verified, verified, expired, invalid, Keys, AuthSettings, blank, partition,
  lower, bearer_token, extract_bearer, issuer_of, jwks_url_of, UserClaims, claims_or_401, user_of,
  decode_with, decode_at, decode_token, get_current_user,
}

module _ {A : Type 0} where
  raised_not_ok : (e : Exc) (a : A) → raised e ≡ ok a → ⊥
  raised_not_ok e a h = cc

  -- A test that raises was not met where a value is returned.
  unless_raised :
      (b : Bool) (e : Exc) (o : Outcome A) (a : A)
      → (if b then raised e else o) ≡ ok a
      → (b ≡ false) × (o ≡ ok a)
  unless_raised true e o a h = absurd (raised_not_ok e a h)
  unless_raised false e o a h = (refl, h)

  bind-ok :
      {B : Type 0} (o : Outcome B) (f : B → Outcome A) (a : A)
      → elim o [ raised e ↦ raised e | ok b ↦ f b ] ≡ ok a
      → (b : B) × (o ≡ ok b) × (f b ≡ ok a)
  bind-ok (ok b) f a h = (b, refl, h)
  bind-ok (raised e) f a h = absurd (raised_not_ok e a h)

true_not_false : true ≡ false → ⊥
true_not_false h = cc

-- The two cases of a partition.
split_of : ℕ → Text → Bool → Text × Text
split_of c s b = if b then ([], s) else (c ∷ (partition s).0, (partition s).1)

abbrev IsJoined : Text → Text × Text → Type 0
IsJoined s p = s ≡ p.0 ++ (b' ' ∷ p.1)

IsJoined-along : (s : Text) {p q : Text × Text} → p ≡ q → IsJoined s q → IsJoined s p
IsJoined-along s e h = rw e h

space_of_test : (c : ℕ) → (c == b' ') ≡ true → c ≡ b' '
space_of_test c e = ground (arith, e)

-- A header that has a token is its scheme, a space and the token.
partition-IsJoined : (s : Text) → blank (partition s).1 ≡ false → IsJoined s (partition s)
unfolding split_of
partition-IsJoined [] h = absurd (true_not_false h)
partition-IsJoined (c ∷ s) h = elim (Bool-cases (c == b' ')) [
  | inl e ↦
      IsJoined-along (c ∷ s) {q = ([], s)} (ap (split_of c s) e)
        (ap (λ d. d ∷ s) (space_of_test c e))
  | inr e ↦
      let cut : partition (c ∷ s) ≡ (c ∷ (partition s).0, (partition s).1) = ap (split_of c s) e in
      IsJoined-along (c ∷ s) cut
        (ap (λ t. c ∷ t) (partition-IsJoined s (sym (ap (λ (p : Text × Text). blank p.1) cut) ∙ h)))
]

-- What stands behind a user: a header `Bearer <token>`, and a token that verifies with the key found for it,
-- for the configured audience and issuer, with the user's id as its claim `sub`.
pub record Evidence (keys : Keys) (s : AuthSettings) (authorization : Option Text)
    (user : AuthenticatedUser) : Type 0 where
  pub scheme : Text
  pub token : Text
  pub url : Text
  pub key : Text
  pub header_is : authorization ≡ some (scheme ++ (b' ' ∷ token))
  pub scheme_is : lower scheme ≡ codes "bearer"
  pub url_is : s.supabase_url ≡ some url
  pub key_is : keys.signing_key (jwks_url_of url) token ≡ some key
  pub verified_is :
      keys.decode token key s.supabase_jwt_audience (issuer_of s url)
      ≡ verified (some user.user_id) user.email
  pub id_given : blank user.user_id ≡ false

user_of-ok :
    (c : UserClaims) (user : AuthenticatedUser)
    → user_of c ≡ ok user
    → (c ≡ (some user.user_id, user.email)) × (blank user.user_id ≡ false)
user_of-ok (none, email) user h = absurd (raised_not_ok (http 401) user h)
user_of-ok (some sub, email) user h =
    let (b, e) = unless_raised (blank sub) (http 401) _ user h in
    let same : record { user_id = sub; email = email } ≡ user = cc (e) in
    (
      ap (λ (u : AuthenticatedUser). (some u.user_id, u.email)) same,
      ap (λ (u : AuthenticatedUser). blank u.user_id) (sym same) ∙ b,
    )

claims_or_401-ok : (v : Verified) (c : UserClaims) → claims_or_401 v ≡ ok c → v ≡ verified c.0 c.1
claims_or_401-ok (verified sub email) c h =
    let e : (sub, email) ≡ c = cc (h) in ap (λ (d : UserClaims). verified d.0 d.1) e
claims_or_401-ok expired c h = absurd (raised_not_ok (http 401) c h)
claims_or_401-ok invalid c h = absurd (raised_not_ok (http 401) c h)

bearer_token-ok :
    (p : Text × Text) (token : Text)
    → bearer_token p ≡ ok token
    → (lower p.0 ≡ codes "bearer") × (blank p.1 ≡ false) × (p.1 ≡ token)
bearer_token-ok (scheme, t) token h =
    let (b, e) =
      unless_raised (not (lower scheme == codes "bearer") || blank t) (http 401) (ok t) token h in
    ((list_beq_iff (lower scheme) (codes "bearer")).0 (is_scheme _ _ b), no_blank _ _ b, cc (e))
  where
    is_scheme : (x y : Bool) → (not x || y) ≡ false → x ≡ true
    is_scheme x y h = ground (arith, h)

    no_blank : (x y : Bool) → (not x || y) ≡ false → y ≡ false
    no_blank x y h = ground (arith, h)

extract_bearer-ok :
    (authorization : Option Text) (token : Text)
    → extract_bearer authorization ≡ ok token
    → (header : Text) × (authorization ≡ some header) × (bearer_token (partition header) ≡ ok token)
unfolding extract_bearer
extract_bearer-ok none token h = absurd (raised_not_ok (http 401) token h)
extract_bearer-ok (some header) token h =
    (header, refl, (unless_raised (blank header) (http 401) _ token h).1)

module _ (keys : Keys) (s : AuthSettings) where
  decode_with-ok :
      (token url : Text) (k : Option Text) (c : UserClaims)
      → decode_with keys s token url k ≡ ok c
      → (key : Text) × (k ≡ some key)
        × (keys.decode token key s.supabase_jwt_audience (issuer_of s url) ≡ verified c.0 c.1)
  decode_with-ok token url none c h = absurd (raised_not_ok (http 401) c h)
  decode_with-ok token url (some key) c h = (key, refl, claims_or_401-ok _ c h)

  decode_at-ok :
      (token : Text) (configured : Option Text) (c : UserClaims)
      → decode_at keys s token configured ≡ ok c
      → (url : Text) × (configured ≡ some url)
        × (decode_with keys s token url (keys.signing_key (jwks_url_of url) token) ≡ ok c)
  decode_at-ok token none c h = absurd (raised_not_ok (http 500) c h)
  decode_at-ok token (some url) c h = (url, refl, (unless_raised (blank url) (http 500) _ c h).1)

  -- Whoever passes for an authenticated user has sent a header of a scheme `bearer`, in any case, a space
  -- and a token, the token verifies with the key found for it, for the configured audience and issuer,
  -- and its claim `sub` is the user's id, which is not empty.
  pub get_current_user-Evidence :
      (authorization : Option Text) (user : AuthenticatedUser)
      → get_current_user keys s authorization ≡ ok user
      → Evidence keys s authorization user
  unfolding get_current_user decode_token
  get_current_user-Evidence authorization user h =
      let (token, found, rest) = bind-ok (extract_bearer authorization) _ user h in
      let (claims, decoded, named) = bind-ok (decode_token keys s token) user_of user rest in
      let (header, is_header, bearer) = extract_bearer-ok authorization token found in
      let (scheme_is, no_blank, token_is) = bearer_token-ok (partition header) token bearer in
      let (url, url_is, at_url) = decode_at-ok token s.supabase_url claims decoded in
      let (key, key_is, signed) = decode_with-ok token url _ claims at_url in
      let (claims_are, id_given) = user_of-ok claims user named in
      record {
        scheme = (partition header).0;
        token = token;
        url = url;
        key = key;
        header_is =
            is_header
            ∙ ap some (
                partition-IsJoined header no_blank
                ∙ ap (λ t. (partition header).0 ++ (b' ' ∷ t)) token_is);
        scheme_is = scheme_is;
        url_is = url_is;
        key_is = key_is;
        verified_is = signed ∙ ap (λ (c : UserClaims). verified c.0 c.1) claims_are;
        id_given = id_given;
      }
