-- ===== src/Conversations/Privacy.antt =====
-- Which conversations a user can read.
use decyra_api.Common.{
  ◌≡◌, refl, sym, ap, ◌∙◌, inl, inr, Bool, true, false, ◌&&◌, ◌||◌, Option, none, some, List, [],
  ◌∷◌, arith, ◌==◌, nat_eq, list_eq, option_eq, list_beq_iff, option_beq_iff, keep_if, find_if, any,
  All, All-map, Bool-cases, Option-cases,
}
use decyra_api.Common.Text.{Text}
use decyra_api.Llm.Candidates.{sorted-All}
use decyra_api.Pii.Spans.{sorted, insert}
use decyra_api.Store.{Db, Ctx, set_workspace_context, Membership, resolve_membership, Conversation}
use decyra_api.World.{Outcome, ok, raised, http}
use decyra_api.Conversations.{
  own, own_with_id, updated_later, own_conversations, list_conversations, or_404,
  shown_conversation, get_conversation,
}

module _ {A : Type 0} (p : A → Bool) where
  any-insert :
      (le : A → A → Bool) (x : A) (xs : List A) → any p (insert le x xs) ≡ (p x || any p xs)
  unfolding insert
  any-insert le x [] = refl
  any-insert le x (y ∷ ys) = elim (Bool-cases (le x y)) [
    | inl e ↦ rw e refl
    | inr e ↦ rw (e, any-insert le x ys) (swapped (p x) (p y) (any p ys))
  ]
    where
      swapped : (a b c : Bool) → (b || (a || c)) ≡ (a || (b || c))
      swapped a b c = ground arith

  any-sorted : (le : A → A → Bool) (xs : List A) → any p (sorted le xs) ≡ any p xs
  unfolding sorted
  any-sorted le [] = refl
  any-sorted le (x ∷ xs) = any-insert le x (sorted le xs) ∙ ap (λ b. p x || b) (any-sorted le xs)

  any-keep_if : (q : A → Bool) (xs : List A) → any p (keep_if q xs) ≡ any (λ x. q x && p x) xs
  any-keep_if q [] = refl
  any-keep_if q (x ∷ xs) = elim (Bool-cases (q x)) [
    | inl e ↦ rw e (ap (λ b. p x || b) (any-keep_if q xs))
    | inr e ↦ rw e (any-keep_if q xs)
  ]

abbrev is_some : {A : Type 0} → Option A → Bool
is_some none = false
is_some (some a) = true

find_if-any : {A : Type 0} (p : A → Bool) (xs : List A) → is_some (find_if p xs) ≡ any p xs
find_if-any p [] = refl
find_if-any p (x ∷ xs) = elim (Bool-cases (p x)) [
  | inl e ↦ rw e refl
  | inr e ↦ rw e (find_if-any p xs)
]

keep_if-holds : {A : Type 0} (p : A → Bool) (xs : List A) → All (λ x. p x ≡ true) (keep_if p xs)
keep_if-holds p [] = tt
keep_if-holds p (x ∷ xs) = elim (Bool-cases (p x)) [
  | inl e ↦ rw e (e, keep_if-holds p xs)
  | inr e ↦ rw e (keep_if-holds p xs)
]

-- The answer shows a conversation.
abbrev pub shows : {A : Type 0} → Outcome A → Bool
shows (ok a) = true
shows (raised e) = false

-- The answered list names the conversation.
abbrev pub names : Text → Outcome (List Conversation) → Bool
names conversation_id (ok cs) = any (λ (c : Conversation). c.id == conversation_id) cs
names conversation_id (raised e) = false

or_404-shows :
    (ctx : Ctx) (db : Db) (cid : Text) (o : Option Conversation)
    → shows (or_404 ctx db cid o) ≡ is_some o
or_404-shows ctx db cid none = refl
or_404-shows ctx db cid (some c) = refl

shown_conversation-shows :
    (db : Db) (cid user_id : Text) (member : Membership)
    → shows (shown_conversation db cid user_id member)
      ≡ is_some (
          find_if
            (own_with_id (set_workspace_context member.workspace_id) user_id cid)
            db.conversations)
unfolding shown_conversation
shown_conversation-shows db cid user_id member =
    or_404-shows (set_workspace_context member.workspace_id) db cid _

own_conversations-any :
    (db : Db) (cid user_id : Text) (member : Membership)
    → any (λ (c : Conversation). c.id == cid) (own_conversations db user_id member)
      ≡ any (own_with_id (set_workspace_context member.workspace_id) user_id cid) db.conversations
unfolding own_conversations
own_conversations-any db cid user_id member =
    any-sorted (λ (c : Conversation). c.id == cid) updated_later _
    ∙ any-keep_if (λ (c : Conversation). c.id == cid)
        (own (set_workspace_context member.workspace_id) user_id) db.conversations

shown_iff_named :
    (db : Db) (cid user_id : Text) (member : Membership)
    → shows (shown_conversation db cid user_id member)
      ≡ any (λ (c : Conversation). c.id == cid) (own_conversations db user_id member)
shown_iff_named db cid user_id member =
    shown_conversation-shows db cid user_id member
    ∙ (find_if-any (own_with_id (set_workspace_context member.workspace_id) user_id cid)
          db.conversations
        ∙ sym (own_conversations-any db cid user_id member))

-- All listed conversations are the user's own, in the workspace of the membership.
abbrev pub AllOwn : Db → Text → Outcome (List Conversation) → Type 0
AllOwn db user_id (raised e) = Unit
AllOwn db user_id (ok cs) =
    (member : Membership) × (resolve_membership db user_id ≡ some member)
    × All (λ (c : Conversation). (c.workspace_id ≡ member.workspace_id) × (c.user_id ≡ user_id)) cs

AllOwn-along :
    (db : Db) (user_id : Text) {o p : Outcome (List Conversation)}
    → o ≡ p
    → AllOwn db user_id p
    → AllOwn db user_id o
AllOwn-along db user_id e h = rw e h

own-parts :
    (ws user_id : Text) (c : Conversation)
    → own (set_workspace_context ws) user_id c ≡ true
    → (c.workspace_id ≡ ws) × (c.user_id ≡ user_id)
own-parts ws user_id c h = ground (
  arith,
  option_beq_iff (some ws) (some c.workspace_id),
  list_beq_iff c.workspace_id ws,
  list_beq_iff c.user_id user_id,
)

own_conversations-own :
    (db : Db) (user_id : Text) (member : Membership)
    → All
        (λ (c : Conversation). (c.workspace_id ≡ member.workspace_id) × (c.user_id ≡ user_id))
        (own_conversations db user_id member)
unfolding own_conversations
own_conversations-own db user_id member = All-map _ _ _ (own-parts member.workspace_id user_id) (
    sorted-All updated_later (λ c. own (set_workspace_context member.workspace_id) user_id c ≡ true)
      _ (keep_if-holds (own (set_workspace_context member.workspace_id) user_id) db.conversations))

list_conversations-of :
    (db : Db) (user_id : Text) (member : Membership)
    → resolve_membership db user_id ≡ some member
    → list_conversations db user_id ≡ ok (own_conversations db user_id member)
unfolding list_conversations
list_conversations-of db user_id member e = rw (e, list_conversations) refl

get_conversation-of :
    (db : Db) (cid user_id : Text) (member : Membership)
    → resolve_membership db user_id ≡ some member
    → get_conversation db cid user_id ≡ shown_conversation db cid user_id member
unfolding get_conversation
get_conversation-of db cid user_id member e = rw (e, get_conversation) refl

list_conversations-unknown :
    (db : Db) (user_id : Text)
    → resolve_membership db user_id ≡ none
    → list_conversations db user_id ≡ raised (http 403)
unfolding list_conversations
list_conversations-unknown db user_id e = rw (e, list_conversations) refl

get_conversation-unknown :
    (db : Db) (cid user_id : Text)
    → resolve_membership db user_id ≡ none
    → get_conversation db cid user_id ≡ raised (http 403)
unfolding get_conversation
get_conversation-unknown db cid user_id e = rw (e, get_conversation) refl

-- The list of a user's conversations has only conversations of that user, in the workspace of its
-- membership, and it names exactly those that the user can open: a conversation is shown if and only if
-- the list has its id.
pub list_conversations-AllOwn :
    (db : Db) (user_id : Text)
    → AllOwn db user_id (list_conversations db user_id)
      × ((cid : Text)
          → shows (get_conversation db cid user_id) ≡ names cid (list_conversations db user_id))
list_conversations-AllOwn db user_id = elim (Option-cases (resolve_membership db user_id)) [
  | inl e ↦ (
    AllOwn-along db user_id (list_conversations-unknown db user_id e) tt,
    λ cid.
        ap shows (get_conversation-unknown db cid user_id e)
        ∙ ap (names cid) (sym (list_conversations-unknown db user_id e)),
  )
  | inr (member, e) ↦ (
    AllOwn-along db user_id (list_conversations-of db user_id member e)
        (member, e, own_conversations-own db user_id member),
    λ cid.
        ap shows (get_conversation-of db cid user_id member e)
        ∙ (shown_iff_named db cid user_id member
            ∙ ap (names cid) (sym (list_conversations-of db user_id member e))),
  )
]
