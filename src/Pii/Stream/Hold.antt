-- ===== src/Pii/Stream/Hold.antt =====
-- Where `_hold_start` cuts: no placeholder of at most `max_ph` characters crosses the cut.
use decyra_api.Common.{
  ℕ, suc, ◌+◌, ◌≤◌, ◌<◌, ◌≡◌, ◌⊎◌, ◌≢◌, nat_eq, refl, ◌∙◌, true, false, none, some, [], ◌∷◌, ◌++◌,
  append_assoc, arith, inl, inr, length, drop, length-append, All-append, Option-cases,
}
use decyra_api.Common.Text.{Text}
use decyra_api.Pii.Placeholder.{Hit, whole}
use decyra_api.Pii.Placeholder.Match.{Lacks}
use decyra_api.Pii.Placeholder.Scan.{length-whole}
use decyra_api.Pii.Stream.{
  max_ph, starts_open, rfind_open, has_close, ends_open, tail_start, hold_start,
}

-- One more character in front moves the cut by one, or holds everything.
pub hold_start-cons :
    (c : ℕ) (b : Text) → (hold_start (c ∷ b) ≡ 0) ⊎ (hold_start (c ∷ b) ≡ suc (hold_start b))
unfolding hold_start rfind_open tail_start ends_open starts_open
hold_start-cons c [] = ground arith
hold_start-cons c (d ∷ s) = ground arith

pub hold_start-le-length : (b : Text) → hold_start b ≤ length b
hold_start-le-length [] = unfold hold_start rfind_open tail_start ends_open in omega arith
hold_start-le-length (c ∷ b) = ground (arith, hold_start-cons c b, hold_start-le-length b)

starts_open-Lacks : (c : ℕ) (v : Text) → Lacks b'[' v → starts_open c v ≡ false
unfolding starts_open
starts_open-Lacks c [] _ = refl
starts_open-Lacks c (d ∷ v) (n, _) = ground arith

starts_open_ne : (c : ℕ) (v : Text) → c ≢ b'[' → starts_open c v ≡ false
unfolding starts_open
starts_open_ne c [] n = refl
starts_open_ne c (d ∷ v) n = ground arith

starts_open-append :
    (h : Hit) (q : Text)
    → Lacks b'[' h.inner
    → starts_open b'[' ((h.inner ++ b']' ∷ b']' ∷ []) ++ q) ≡ false
unfolding starts_open
starts_open-append h q l = go h.inner l
  where
    go : (u : Text) → Lacks b'[' u → starts_open b'[' ((u ++ b']' ∷ b']' ∷ []) ++ q) ≡ false
    go [] _ = refl
    go (d ∷ u) (n, _) = ground arith

rfind_open-Lacks : (v : Text) → Lacks b'[' v → rfind_open v ≡ none
unfolding rfind_open
rfind_open-Lacks [] _ = refl
rfind_open-Lacks (c ∷ v) (n, l) = ground (arith, rfind_open-Lacks v l, starts_open_ne c v n)

rfind_open-append_none :
    (v q : Text) → Lacks b'[' v → rfind_open q ≡ none → rfind_open (v ++ q) ≡ none
unfolding rfind_open
rfind_open-append_none [] q _ e = e
rfind_open-append_none (c ∷ v) q (n, l) e =
    ground (arith, rfind_open-append_none v q l e, starts_open_ne c (v ++ q) n)

rfind_open-append_some :
    (v q : Text) (j : ℕ)
    → Lacks b'[' v
    → rfind_open q ≡ some j
    → rfind_open (v ++ q) ≡ some (length v + j)
unfolding rfind_open
rfind_open-append_some [] q j _ e = ground (arith, e)
rfind_open-append_some (c ∷ v) q j (n, l) e = ground (arith, rfind_open-append_some v q j l e)

ends_open_of_close : (w q : Text) → ends_open (w ++ b']' ∷ q) ≡ true → 0 < length q
unfolding ends_open
ends_open_of_close [] [] e = cc
ends_open_of_close [] (d ∷ q) e = omega arith
ends_open_of_close (c ∷ []) [] e = cc
ends_open_of_close (c ∷ []) (d ∷ q) e = omega arith
ends_open_of_close (c ∷ d ∷ w) q e = ends_open_of_close (d ∷ w) q e

has_close_of_pair : (u q : Text) → has_close (u ++ b']' ∷ b']' ∷ q) ≡ true
unfolding has_close
has_close_of_pair [] q = refl
has_close_of_pair (c ∷ []) q = ground arith
has_close_of_pair (c ∷ d ∷ u) q = ground (arith, has_close_of_pair (d ∷ u) q)

has_close_of_prefix :
    (u p q : Text)
    → Lacks b']' u
    → u ++ b']' ∷ b']' ∷ [] ≡ p ++ q
    → length p < length u + 2
    → has_close p ≡ false
unfolding has_close
has_close_of_prefix u [] q l e short = refl
has_close_of_prefix u (x ∷ []) q l e short = refl
has_close_of_prefix [] (x ∷ y ∷ p) q l e short = absurd (omega arith)
has_close_of_prefix (c ∷ u) (x ∷ y ∷ p) q (n, l) e short =
    let (head, tail) : (c ≡ x) × (u ++ b']' ∷ b']' ∷ [] ≡ (y ∷ p) ++ q) = (cc, cc) in
    ground (arith, has_close_of_prefix u (y ∷ p) q l tail (omega arith))

Lacks-prefix : (b : ℕ) (v p q : Text) → Lacks b v → v ≡ p ++ q → Lacks b p
Lacks-prefix b v [] q l e = tt
Lacks-prefix b [] (x ∷ p) q l e = cc
Lacks-prefix b (c ∷ v) (x ∷ p) q (n, l) e =
    let same : c ≡ x = cc in (λ r. n (same ∙ r), Lacks-prefix b v p q l (cc))

-- Behind the opening brackets of a match there is no opening bracket.
body-Lacks : (h : Hit) → Lacks b'[' h.inner → Lacks b'[' (h.inner ++ b']' ∷ b']' ∷ [])
body-Lacks h l = All-append (λ c. c ≢ b'[') h.inner _ l (omega arith)

-- A proper prefix of `whole h` is held from its start.
pub hold_start_of_prefix :
    (h : Hit) (p q : Text)
    → Lacks b'[' h.inner
    → Lacks b']' h.inner
    → length (whole h) ≤ max_ph
    → whole h ≡ p ++ q
    → length p < length (whole h)
    → hold_start p ≡ 0
unfolding hold_start rfind_open tail_start ends_open starts_open
hold_start_of_prefix h [] q no_open no_close short e proper = omega arith
hold_start_of_prefix h (x ∷ []) q no_open no_close short e proper =
    let x_open : x ≡ b'[' = cc in rw x_open refl
hold_start_of_prefix h (x ∷ y ∷ p) q no_open no_close short e proper =
    let tail : h.inner ++ b']' ∷ b']' ∷ [] ≡ p ++ q = cc in
    let closed = has_close_of_prefix h.inner p q no_close tail (omega (arith, length-whole h)) in
    let p_lacks = Lacks-prefix b'[' _ p q (body-Lacks h no_open) tail in
    let x_open : x ≡ b'[' = cc in
    let y_open : y ≡ b'[' = cc in
    ground (arith, closed, rfind_open-Lacks p p_lacks, starts_open-Lacks y p p_lacks)

le-tail_start : (h : Hit) (q : Text) → length (whole h) ≤ tail_start (whole h ++ q)
unfolding tail_start
le-tail_start h q =
    let split : whole h ++ q ≡ (b'[' ∷ b'[' ∷ (h.inner ++ b']' ∷ [])) ++ b']' ∷ q =
      simp append_assoc in
    let last : ends_open (whole h ++ q) ≡ true → 0 < length q =
      λ e. ends_open_of_close (b'[' ∷ b'[' ∷ (h.inner ++ b']' ∷ [])) q (rw split at e) in
    ground (arith, last, length-append (whole h) q)

-- The last `[[` of a whole placeholder and what follows it.
rfind_open-whole-none :
    (h : Hit) (q : Text)
    → Lacks b'[' h.inner
    → rfind_open q ≡ none
    → rfind_open (whole h ++ q) ≡ some 0
unfolding rfind_open starts_open
rfind_open-whole-none h q no_open e =
    let v = h.inner ++ b']' ∷ b']' ∷ [] in
    ground
      (arith, rfind_open-append_none v q (body-Lacks h no_open) e, starts_open-append h q no_open)

rfind_open-whole-some :
    (h : Hit) (q : Text) (j : ℕ)
    → Lacks b'[' h.inner
    → rfind_open q ≡ some j
    → rfind_open (whole h ++ q) ≡ some (length (whole h) + j)
unfolding rfind_open
rfind_open-whole-some h q j no_open e =
    ground
      (arith, rfind_open-append_some (h.inner ++ b']' ∷ b']' ∷ []) q j (body-Lacks h no_open) e)

-- Behind a whole placeholder the cut comes after it.
pub le-hold_start :
    (h : Hit) (q : Text) → Lacks b'[' h.inner → length (whole h) ≤ hold_start (whole h ++ q)
unfolding hold_start
le-hold_start h q no_open = elim (Option-cases (rfind_open q)) [
  | inl e ↦
      let closed : has_close (drop 2 (whole h ++ q)) ≡ true =
        rw append_assoc (has_close_of_pair h.inner q) in
      rw (rfind_open-whole-none h q no_open e, hold_start, closed) (le-tail_start h q)
  | inr (j, e) ↦ ground (arith, rfind_open-whole-some h q j no_open e, le-tail_start h q)
]
