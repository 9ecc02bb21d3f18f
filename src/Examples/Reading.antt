-- ===== src/Examples/Reading.antt =====
-- Conversations and verify links at concrete rows.
use decyra_api.Common.{
  ℕ, ◌≡◌, refl, ◌⊎◌, Bool, true, false, Option, none, some, [], ◌∷◌, ◌++◌, arith, ◌==◌, nat_eq,
  list_eq, list_beq_iff, if◌then◌else◌, length, take, drop, take-append, drop-append,
}
use decyra_api.Common.Tests.{leb, ltb}
use decyra_api.Common.Text.{Text, codes}
use decyra_api.Audit.Endpoints.{
  issuer, Payload, Decoded, claims, expired_signature, invalid_token, Jwt, VerifySettings, is_blank,
  issue_verify_token, decode_verify_token, public_verify, verify_workspace_chain,
}
use decyra_api.Audit.Links.{Honours, Worth, decode_verify_token-Worth, public_verify-Lasts}
use decyra_api.Conversations.{list_conversations, get_conversation}
use decyra_api.Conversations.Privacy.{AllOwn, shows, names, list_conversations-AllOwn}
use decyra_api.Store.{Db, Conversation}
use decyra_api.World.{ok, raised, http}

-- A token in clear: the times, the length of the claim `sub`, the claim, and the issuer.
abbrev plain_encode : Payload → Text → Text
plain_encode p secret = p.iat ∷ p.exp ∷ length p.sub ∷ (p.sub ++ p.iss)

abbrev judged : Bool → Bool → Bool → Text → Decoded
judged false unexpired begun sub = invalid_token
judged true false begun sub = expired_signature
judged true true false sub = invalid_token
judged true true true sub = claims (some sub)

abbrev plain_decode : Text → Text → Text → ℕ → Decoded
plain_decode (iat ∷ exp ∷ n ∷ rest) secret iss now =
    judged (drop n rest == iss) (ltb now exp) (leb iat now) (take n rest)
plain_decode _ secret iss now = invalid_token

abbrev plain_jwt : Jwt
plain_jwt = record { encode = plain_encode; decode = plain_decode }

issuer_kept : (p : Payload) → (drop (length p.sub) (p.sub ++ p.iss) == p.iss) ≡ true
issuer_kept p = (list_beq_iff _ p.iss).1 (drop-append p.sub p.iss)

judged-along :
    (a b c : Bool) (s : Text) (a' b' c' : Bool) (s' : Text)
    → a ≡ a'
    → b ≡ b'
    → c ≡ c'
    → s ≡ s'
    → judged a b c s ≡ judged a' b' c' s'
judged-along a b c s a' b' c' s' p q r t = rw (p, q, r, t) refl

plain_jwt-Honours : Honours plain_jwt
plain_jwt-Honours = record {
  fresh = λ p secret now l q.
      judged-along _ _ _ _ true true true p.sub (issuer_kept p) q l (take-append p.sub p.iss);
  stale = λ p secret now l.
      judged-along _ _ _ _ true false (leb p.iat now) p.sub (issuer_kept p) (late now p.exp l) refl
        (take-append p.sub p.iss);
}
  where
    late : (now exp : ℕ) → leb exp now ≡ true → ltb now exp ≡ false
    late now exp l = ground (arith, l)

abbrev some_settings : VerifySettings
some_settings = record { audit_verify_secret = codes "key"; default_ttl_seconds = 100 }

abbrev is_ws : Text → Bool
is_ws s = s == codes "ws"

abbrev as_uuid : Text → Option Text
as_uuid s = if s == codes "ws" then some s else none

abbrev some_link : Text
some_link =
    plain_encode (record { sub = codes "ws"; iss = issuer; iat = 10; exp = 110 }) (codes "key")

link_issued : issue_verify_token plain_jwt (codes "ws") some_settings (some 0) 10 ≡ ok some_link
unfolding issue_verify_token
link_issued = refl

public_verify-Lasts_example :
    public_verify (λ n. []) (λ s. s) plain_jwt is_ws as_uuid [] some_settings 50 some_link
    ≡ ok (codes "ws", verify_workspace_chain (λ n. []) (λ s. s) (codes "ws") [])
public_verify-Lasts_example =
    public_verify-Lasts (λ n. []) (λ s. s) plain_jwt plain_jwt-Honours is_ws as_uuid []
      some_settings (codes "ws") (some 0) 10 50 some_link refl refl refl link_issued refl

decode_verify_token-Worth_example :
    ((is_blank (codes "key") ≡ true)
      × (decode_verify_token plain_jwt is_ws some_link some_settings 120 ≡ raised (http 500)))
    ⊎ ((is_blank (codes "key") ≡ false)
        × Worth plain_jwt is_ws expired_signature
            (decode_verify_token plain_jwt is_ws some_link some_settings 120))
decode_verify_token-Worth_example =
    decode_verify_token-Worth plain_jwt is_ws some_link some_settings 120

abbrev a_conversation : Text → Text → Text → ℕ → Conversation
a_conversation id ws user_id updated_at = record {
  id = id;
  workspace_id = ws;
  user_id = user_id;
  title = codes "t";
  pii_mode = none;
  updated_at = updated_at;
}

-- One conversation of another user, one in another workspace, and two of the user's own.
abbrev some_db : Db
some_db = record {
  models = [];
  members =
      (
        codes "ada",
        record { organization_id = codes "org"; workspace_id = codes "ws"; role = codes "user" },
      )
      ∷ [];
  workspace_modes = [];
  conversations =
      a_conversation (codes "c1") (codes "ws") (codes "ada") 3
      ∷ a_conversation (codes "c2") (codes "ws") (codes "bob") 9
      ∷ a_conversation (codes "c3") (codes "other") (codes "ada") 8
      ∷ a_conversation (codes "c4") (codes "ws") (codes "ada") 7
      ∷ [];
  messages = [];
  attachments = [];
  audit_events = [];
  code_events = [];
  now = 10;
  fresh_id = codes "f";
}

ada_sees_two :
    list_conversations some_db (codes "ada")
    ≡ ok (
        a_conversation (codes "c4") (codes "ws") (codes "ada") 7
        ∷ a_conversation (codes "c1") (codes "ws") (codes "ada") 3
        ∷ [])
unfolding list_conversations
ada_sees_two = refl

list_conversations-AllOwn_example :
    AllOwn some_db (codes "ada") (list_conversations some_db (codes "ada"))
    × ((cid : Text)
        → shows (get_conversation some_db cid (codes "ada"))
          ≡ names cid (list_conversations some_db (codes "ada")))
list_conversations-AllOwn_example = list_conversations-AllOwn some_db (codes "ada")
