-- ===== src/Invitations/Kept.antt =====
-- Tables of invitations in which every earlier invitation is kept.
use decyra_api.Common.{
  ℕ, zero, suc, ◌+◌, ◌≡◌, refl, sym, ap, ◌∙◌, ◌⊎◌, inl, inr, Bool, true, false, some, List, [], ◌∷◌,
  ◌++◌, ◌==◌, nat_eq, list_eq, if◌then◌else◌, keep_if, length, get_elem?, All, All-map, arith,
  Bool-cases,
}
use decyra_api.Common.Text.{Text}
use decyra_api.Pii.Anonymizer.Order.{sorted-All}
use decyra_api.Invitations.{
  InvitationStatus, pending, accepted, expired, revoked, is_pending, Invitation, Directory,
  newer_first, set_status, open_for, open_invitation,
}
use decyra_api.Invitations.Rows.{first_row-All}

-- The ids count up from the number.
abbrev pub NumberedFrom : ℕ → List Invitation → Type 0
NumberedFrom k [] = Unit
NumberedFrom k (i ∷ is) = (i.id ≡ k) × NumberedFrom (suc k) is

-- An invitation that keeps its terms, and its status unless it was pending.
pub record Follows (i j : Invitation) : Type 0 where
  pub terms : j ≡ record i { status = j.status }
  pub status : (i.status ≡ pending) ⊎ (j.status ≡ i.status)

-- The invitation stands at its place in the table, and follows what it was.
abbrev pub Kept : List Invitation → ℕ → Invitation → Type 0
Kept is n i = (j : Invitation) × (get_elem? is n ≡ some j) × Follows i j

-- Every invitation of the first table is kept in the second.
abbrev pub AllKept : List Invitation → List Invitation → Type 0
AllKept is js = (n : ℕ) (i : Invitation) → get_elem? is n ≡ some i → Kept js n i

pub AllKept-refl : (is : List Invitation) → AllKept is is
AllKept-refl is n i e = (i, e, record { terms = refl; status = inr refl })

Follows-trans : {i j k : Invitation} → Follows i j → Follows j k → Follows i k
Follows-trans {i} {j} {k} f g = record {
  terms = g.terms ∙ ap (λ (x : Invitation). record x { status = k.status }) f.terms;
  status = elim f.status [
    | inl p ↦ inl p
    | inr e ↦ elim g.status [ inl p ↦ inl (sym e ∙ p) | inr q ↦ inr (q ∙ e) ]
  ];
}

pub AllKept-trans : (is js ks : List Invitation) → AllKept is js → AllKept js ks → AllKept is ks
AllKept-trans is js ks f g n i e =
    let (j, at_j, fj) = f n i e in let (k, at_k, gk) = g n j at_j in (k, at_k, Follows-trans fj gk)

pub AllKept-append : (is js : List Invitation) → AllKept is (is ++ js)
AllKept-append [] js n i e = absurd (cc (e))
AllKept-append (x ∷ is) js zero i e = (i, e, record { terms = refl; status = inr refl })
AllKept-append (x ∷ is) js (suc n) i e = AllKept-append is js n i e

-- What the update may touch is pending.
abbrev pub OnPending : (Invitation → Bool) → List Invitation → Type 0
OnPending p is =
    (n : ℕ) (i : Invitation) → get_elem? is n ≡ some i → p i ≡ true → i.status ≡ pending

Follows-set :
    (b : Bool) (s : InvitationStatus) (i : Invitation)
    → (b ≡ true → i.status ≡ pending)
    → Follows i (if b then record i { status = s } else i)
Follows-set true s i h = record { terms = refl; status = inl (h refl) }
Follows-set false s i h = record { terms = refl; status = inr refl }

pub set_status-AllKept :
    (p : Invitation → Bool) (s : InvitationStatus) (is : List Invitation)
    → OnPending p is
    → AllKept is (set_status p s is)
unfolding set_status
set_status-AllKept p s [] h n i e = absurd (cc (e))
set_status-AllKept p s (x ∷ is) h zero i e =
    let same : x ≡ i = cc (e) in
    (
      if p x then record x { status = s } else x,
      refl,
      rw (sym same) (Follows-set (p x) s x (h zero x refl)),
    )
set_status-AllKept p s (x ∷ is) h (suc n) i e =
    set_status-AllKept p s is (λ m j q. h (suc m) j q) n i e

id_kept :
    (b : Bool) (s : InvitationStatus) (i : Invitation)
    → (if b then record i { status = s } else i).id ≡ i.id
id_kept true s i = refl
id_kept false s i = refl

pub set_status-NumberedFrom :
    (p : Invitation → Bool) (s : InvitationStatus) (k : ℕ) (is : List Invitation)
    → NumberedFrom k is
    → NumberedFrom k (set_status p s is)
unfolding set_status
set_status-NumberedFrom p s k [] _ = tt
set_status-NumberedFrom p s k (i ∷ is) (e, h) =
    (id_kept (p i) s i ∙ e, set_status-NumberedFrom p s (suc k) is h)

pub append-NumberedFrom :
    (k : ℕ) (is : List Invitation) (x : Invitation)
    → NumberedFrom k is
    → x.id ≡ k + length is
    → NumberedFrom k (is ++ x ∷ [])
append-NumberedFrom k [] x _ e = (omega (arith, e), tt)
append-NumberedFrom k (i ∷ is) x (q, h) e =
    (q, append-NumberedFrom (suc k) is x h (omega (arith, e)))

NumberedFrom-id :
    (k n : ℕ) (is : List Invitation) (i : Invitation)
    → NumberedFrom k is
    → get_elem? is n ≡ some i
    → i.id ≡ k + n
NumberedFrom-id k n [] i _ e = absurd (cc (e))
NumberedFrom-id k zero (x ∷ is) i (q, _) e =
    let same : x ≡ i = cc (e) in omega (arith, q, ap (λ (y : Invitation). y.id) same)
NumberedFrom-id k (suc n) (x ∷ is) i (_, h) e = omega (arith, NumberedFrom-id (suc k) n is i h e)

pub is_pending-pending : (s : InvitationStatus) → is_pending s ≡ true → s ≡ pending
is_pending-pending pending e = refl
is_pending-pending accepted e = absurd (cc (e))
is_pending-pending expired e = absurd (cc (e))
is_pending-pending revoked e = absurd (cc (e))

-- The element stands in the table.
unfoldable pub Occurs : List Invitation → Invitation → Type 0
Occurs is i = (n : ℕ) × (get_elem? is n ≡ some i)

All-Occurs : (is : List Invitation) → All (Occurs is) is
unfolding Occurs
All-Occurs [] = tt
All-Occurs (i ∷ is) = ((0, refl), All-map (Occurs is) _ is (λ j (n, e). (suc n, e)) (All-Occurs is))

keep_if-passes :
    (P : Invitation → Type 0) (p : Invitation → Bool) (is : List Invitation)
    → All P is
    → All (λ i. (p i ≡ true) × P i) (keep_if p is)
keep_if-passes P p [] h = tt
keep_if-passes P p (i ∷ is) (q, h) = elim (Bool-cases (p i)) [
  | inl e ↦ rw e ((e, q), keep_if-passes P p is h)
  | inr e ↦ rw e (keep_if-passes P p is h)
]

-- An invitation that is open for an address is pending, and stands in the table.
pub open_invitation-pending :
    (d : Directory) (email : Text) (inv : Invitation)
    → open_invitation d email ≡ some inv
    → (inv.status ≡ pending) × Occurs d.invitations inv
unfolding open_invitation
open_invitation-pending d email inv e =
    let (passes, occurs) =
      first_row-All (λ i. (open_for d.now email i ≡ true) × Occurs d.invitations i) _ inv
        (sorted-All (λ i. (open_for d.now email i ≡ true) × Occurs d.invitations i) newer_first _
          (keep_if-passes (Occurs d.invitations) (open_for d.now email) d.invitations
            (All-Occurs d.invitations)))
        e in
    (is_pending-pending inv.status (ground (arith, passes)), occurs)

eq_of_test : (m n : ℕ) → (m == n) ≡ true → m ≡ n
eq_of_test m n e = ground (arith, e)

-- The update of one invitation by its id touches only that one.
pub by_id-OnPending :
    (is : List Invitation) (inv : Invitation)
    → NumberedFrom 0 is
    → inv.status ≡ pending
    → Occurs is inv
    → OnPending (λ i. i.id == inv.id) is
unfolding Occurs
by_id-OnPending is inv numbered p (m, at_m) n i at_n same =
    let here : n ≡ m = omega (
      arith,
      NumberedFrom-id 0 n is i numbered at_n,
      NumberedFrom-id 0 m is inv numbered at_m,
      (eq_of_test i.id inv.id same),
    ) in
    let both : i ≡ inv = cc (ap (get_elem? is) here, at_n, at_m) in
    ap (λ (x : Invitation). x.status) both ∙ p
