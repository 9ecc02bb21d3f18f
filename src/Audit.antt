-- ===== src/Audit.antt =====
-- app/audit.py, and the trigger `audit_events_hash_chain` of the migrations that it mirrors.
pub mod Canonical
pub mod Chain
pub mod Tamper
pub mod Order
pub mod Inserts
pub mod Endpoints
pub mod Links
use decyra_api.Common.{
  ℕ, suc, ◌+◌, Bool, true, false, not, Option, none, some, List, [], ◌∷◌, ◌++◌, ◌==◌, nat_eq,
  list_eq, option_eq, if◌then◌else◌, length, ltb, ◌&&◌, ◌||◌, keep_if,
}
use decyra_api.Common.Text.{Text, codes, join, decimal}
use decyra_api.Pii.Spans.{sorted}
use decyra_api.Common.Codec.{utf8_length}

-- `AuditEventForHash`. A timestamp counts microseconds.
pub record AuditEventForHash : Type 0 where
  pub prev_hash : Option Text
  pub workspace_id : Text
  pub user_id : Text
  pub timestamp : ℕ
  pub model : Text
  pub request_text : Text
  pub response_text : Text
  pub canonical_version : Text
  pub pii_mode : Option Text
  pub anonymized : Option Bool

-- A row of `audit_events`, as `verify_workspace_chain` reads it.
pub record Row : Type 0 where
  pub id : Text
  pub event : AuditEventForHash
  pub current_hash : Option Text

pub record VerifyResult : Type 0 where
  pub valid : Bool
  pub event_count : ℕ
  pub broken_at : Option ℕ

-- `s or default`
abbrev pub or_else : Text → Text → Text
or_else [] default = default
or_else (c ∷ s) default = c ∷ s

abbrev pub given_or : Option Text → Text → Text
given_or none default = default
given_or (some s) default = or_else s default

abbrev pub v1 : Text
v1 = codes "v1"

abbrev pub v2 : Text
v2 = codes "v2"

-- `"true" if e.anonymized else "false"`
abbrev pub anonymized_text : Option Bool → Text
anonymized_text none = codes "false"
anonymized_text (some b) = if b then codes "true" else codes "false"

-- `_length_prefixed`
unfoldable pub length_prefixed : Text → Text
length_prefixed s = decimal (utf8_length s) ++ (b':' ∷ s)

-- `to_hash`: an empty version is `v1`.
abbrev pub to_hash : AuditEventForHash → AuditEventForHash
to_hash e = record e { canonical_version = or_else e.canonical_version v1 }

abbrev is_none : Option ℕ → Bool
is_none none = true
is_none (some i) = false

-- The order of UUIDs, which is that of their texts.
abbrev pub text_le : Text → Text → Bool
text_le [] t = true
text_le (c ∷ s) [] = false
text_le (c ∷ s) (d ∷ t) = let rest = text_le s t in ltb c d || (c == d && rest)

-- `ORDER BY timestamp ASC, id ASC`, and `ORDER BY timestamp DESC, id DESC`
abbrev pub in_order : Row → Row → Bool
in_order r s =
    ltb r.event.timestamp s.event.timestamp
    || (r.event.timestamp == s.event.timestamp && text_le r.id s.id)

abbrev pub latest_first : Row → Row → Bool
latest_first r s = in_order s r

-- `WHERE workspace_id = …`
abbrev pub of_workspace : Text → Row → Bool
of_workspace workspace_id r = r.event.workspace_id == workspace_id

-- The rows that `verify_workspace_chain` reads, in its order.
unfoldable pub workspace_rows : Text → List Row → List Row
unfolding sorted
workspace_rows workspace_id rows = sorted in_order (keep_if (of_workspace workspace_id) rows)

-- `current_hash` of the first row, and NULL where there is none.
abbrev pub first_hash : List Row → Option Text
first_hash [] = none
first_hash (r ∷ rows) = r.current_hash

-- The trigger's `SELECT current_hash … LIMIT 1`, on the rows of all workspaces.
unfoldable pub last_hash : Text → List Row → Option Text
unfolding sorted
last_hash workspace_id rows =
    first_hash (sorted latest_first (keep_if (of_workspace workspace_id) rows))

abbrev pub or_sovereign : Option Text → Text
or_sovereign none = codes "sovereign"
or_sovereign (some m) = m

abbrev pub or_false : Option Bool → Bool
or_false none = false
or_false (some b) = b

-- The two libraries that the chain rests on: `_format_ts`, and the SHA-256 of a text's UTF-8 bytes in hex.
module _ (format_ts : ℕ → Text) where
  -- What only `v2` appends.
  unfoldable pub version_parts : AuditEventForHash → List Text
  unfolding length_prefixed
  version_parts e =
      if e.canonical_version == v2
      then length_prefixed (given_or e.pii_mode (codes "sovereign"))
        ∷ anonymized_text e.anonymized
        ∷ []
      else []

  unfoldable pub canonical_string : AuditEventForHash → Text
  unfolding version_parts join
  canonical_string e = join (codes "|") (
      e.canonical_version
      ∷ given_or e.prev_hash []
      ∷ e.workspace_id
      ∷ e.user_id
      ∷ format_ts e.timestamp
      ∷ length_prefixed e.model
      ∷ length_prefixed e.request_text
      ∷ length_prefixed e.response_text
      ∷ version_parts e)

  -- The trigger's own expression, on a row whose columns it has normalised.
  unfoldable pub trigger_canonical : Option Text → AuditEventForHash → Text → Bool → Text
  unfolding length_prefixed
  trigger_canonical last_hash new pii_mode anonymized =
      codes "v2|"
      ++ (given_or last_hash []
          ++ (codes "|"
              ++ (new.workspace_id
                  ++ (codes "|"
                      ++ (new.user_id
                          ++ (codes "|"
                              ++ (format_ts new.timestamp
                                  ++ (codes "|"
                                      ++ (length_prefixed new.model
                                          ++ (codes "|"
                                              ++ (length_prefixed new.request_text
                                                  ++ (codes "|"
                                                      ++ (length_prefixed new.response_text
                                                          ++ (codes "|"
                                                            ++ (length_prefixed pii_mode
                                                            ++ (codes "|"
                                                            ++ (if anonymized
                                                            then codes "true"
                                                            else codes "false")))))))))))))))))

  module _ (sha256_hex : Text → Text) where
    unfoldable pub compute_hash : AuditEventForHash → Text
    unfolding canonical_string
    compute_hash e = sha256_hex (canonical_string e)

    -- The loop of `verify_chain`: the index of the first broken row, from `previous_hash` on.
    unfoldable pub broken_from : ℕ → Option Text → List Row → Option ℕ
    unfolding compute_hash
    broken_from i previous_hash [] = none
    broken_from i previous_hash (r ∷ rows) =
        let rest = broken_from (suc i) r.current_hash rows in
        if not (r.event.prev_hash == previous_hash)
        then some i
        else if not (some (compute_hash (to_hash r.event)) == r.current_hash)
        then some i
        else rest

    unfoldable pub verify_chain : List Row → VerifyResult
    unfolding broken_from
    verify_chain rows =
        let broken_at = broken_from 0 none rows in
        record { valid = is_none broken_at; event_count = length rows; broken_at = broken_at }

    -- The row that the trigger makes of an insert.
    unfoldable pub chained : Text → Option Text → AuditEventForHash → Row
    unfolding trigger_canonical
    chained id last new =
        let mode = or_sovereign new.pii_mode in
        let anon = or_false new.anonymized in
        record {
          id = id;
          event = record new {
            prev_hash = last;
            canonical_version = v2;
            pii_mode = some mode;
            anonymized = some anon;
          };
          current_hash = some (sha256_hex (trigger_canonical last new mode anon));
        }

    -- An insert into the table of all workspaces.
    unfoldable pub append_event : List Row → Text → AuditEventForHash → List Row
    unfolding chained last_hash
    append_event rows id new = rows ++ chained id (last_hash new.workspace_id rows) new ∷ []
