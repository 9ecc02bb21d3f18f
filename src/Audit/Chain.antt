-- ===== src/Audit/Chain.antt =====
-- What `verify_chain` accepts, and what the trigger writes.
use decyra_api.Common.{
  ℕ, suc, ◌≡◌, ◌↔◌, refl, ◌⊎◌, inl, inr, true, Option, none, some, List, [], ◌∷◌, ◌++◌, arith,
  nat_eq, list_eq, option_eq, option_beq_iff,
}
use decyra_api.Common.Text.{Text, codes, join}
use decyra_api.Audit.{
  AuditEventForHash, Row, canonical_string, trigger_canonical, version_parts, given_or,
  compute_hash, to_hash, broken_from, verify_chain, chained, or_sovereign,
}

-- The CHECK of the column `pii_mode`.
abbrev pub IsMode : Option Text → Type 0
IsMode m = (m ≡ none) ⊎ ((m ≡ some (codes "sovereign")) ⊎ (m ≡ some (codes "strict")))

-- The stored hash of the last row of a list.
unfoldable pub final_hash : Option Text → List Row → Option Text
final_hash previous [] = previous
final_hash previous (r ∷ rows) = final_hash r.current_hash rows

module _ (format_ts : ℕ → Text) (sha256_hex : Text → Text) where
  -- Each row names the hash of the row before it, and carries its own.
  abbrev pub IsChain : Option Text → List Row → Type 0
  IsChain previous [] = Unit
  IsChain previous (r ∷ rows) =
      (r.event.prev_hash ≡ previous)
      × (some (compute_hash format_ts sha256_hex (to_hash r.event)) ≡ r.current_hash)
      × IsChain r.current_hash rows

  broken_from-IsChain :
      (i : ℕ) (previous : Option Text) (rows : List Row)
      → broken_from format_ts sha256_hex i previous rows ≡ none
      → IsChain previous rows
  unfolding broken_from
  broken_from-IsChain i previous [] h = tt
  broken_from-IsChain i previous (r ∷ rows) h = ground (
    arith,
    option_beq_iff r.event.prev_hash previous,
    option_beq_iff (some (compute_hash format_ts sha256_hex (to_hash r.event))) r.current_hash,
    broken_from-IsChain (suc i) r.current_hash rows,
  )

  IsChain-broken_from :
      (i : ℕ) (previous : Option Text) (rows : List Row)
      → IsChain previous rows
      → broken_from format_ts sha256_hex i previous rows ≡ none
  unfolding broken_from
  IsChain-broken_from i previous [] h = refl
  IsChain-broken_from i previous (r ∷ rows) (p, c, h) =
      let rest = IsChain-broken_from (suc i) r.current_hash rows h in
      ground (
        arith,
        option_beq_iff r.event.prev_hash previous,
        option_beq_iff (some (compute_hash format_ts sha256_hex (to_hash r.event))) r.current_hash,
      )

  -- `verify_chain` accepts a list of rows exactly if the first names no predecessor, each further row
  -- names the stored hash of the row before it, and each stored hash is the hash of its row.
  pub verify_chain-valid_iff :
      (rows : List Row)
      → ((verify_chain format_ts sha256_hex rows).valid ≡ true) ↔ IsChain none rows
  unfolding verify_chain
  verify_chain-valid_iff rows = (
    λ h. broken_from-IsChain 0 none rows (ground arith),
    λ h. let e = IsChain-broken_from 0 none rows h in ground arith,
  )

  mode_kept :
      (m : Option Text)
      → IsMode m
      → given_or (some (or_sovereign m)) (codes "sovereign") ≡ or_sovereign m
  mode_kept m (inl e) = rw e refl
  mode_kept m (inr (inl e)) = rw e refl
  mode_kept m (inr (inr e)) = rw e refl

  -- For a mode that passes the column's CHECK, the hash that the trigger stores is the hash that the
  -- verifier recomputes from the stored row.
  pub trigger_canonical-mirror :
      (id : Text) (last : Option Text) (new : AuditEventForHash)
      → IsMode new.pii_mode
      → (chained format_ts sha256_hex id last new).current_hash
        ≡ some (
            compute_hash format_ts sha256_hex
              (to_hash (chained format_ts sha256_hex id last new).event))
  unfolding chained compute_hash canonical_string trigger_canonical version_parts join
  trigger_canonical-mirror id last new m = rw (mode_kept new.pii_mode m) refl

  pub chained_prev :
      (id : Text) (last : Option Text) (new : AuditEventForHash)
      → (chained format_ts sha256_hex id last new).event.prev_hash ≡ last
  unfolding chained
  chained_prev id last new = refl

  pub append-IsChain :
      (previous : Option Text) (rows : List Row) (r : Row)
      → IsChain previous rows
      → IsChain (final_hash previous rows) (r ∷ [])
      → IsChain previous (rows ++ r ∷ [])
  unfolding final_hash
  append-IsChain previous [] r h k = k
  append-IsChain previous (x ∷ rows) r (p, c, h) k =
      (p, c, append-IsChain x.current_hash rows r h k)
