-- ===== src/Pii/Anonymizer/Issue.antt =====
-- The placeholders in use: each stands for one value, and the counters are ahead of all of them.
use decyra_api.Common.{
  ℕ, ◌+◌, ◌≤◌, ◌≡◌, ◌≢◌, ◌⊎◌, refl, sym, ◌∙◌, none, some, List, ◌∷◌, arith, ◌==◌, nat_eq, list_eq,
  list_beq_iff, lookup, Bool-cases, Option-cases, inl, inr,
}
use decyra_api.Common.Text.{Text}
use decyra_api.Pii.Placeholder.{Mapping}
use decyra_api.Pii.Anonymizer.{Anonymizer, empty, counter, mint, placeholder_for, clean_type}
use decyra_api.Pii.Anonymizer.Keys.{IsType, key, key-injective, clean_type-IsType}

-- The placeholder of a value.
pub record Names (m : Mapping) (v ph : Text) : Type 0 where
  pub etype : Text
  pub number : ℕ
  pub is_type : IsType etype
  pub spelled : ph ≡ key etype number
  pub bound : lookup ph m ≡ some v

-- What every anonymiser satisfies that starts empty.
pub record IsIssued (a : Anonymizer) : Type 0 where
  pub known : (v ph : Text) → lookup v a.value_to_ph ≡ some ph → Names a.ph_to_value v ph
  pub fresh :
      (e : Text) (n : ℕ)
      → IsType e
      → counter a.type_counters e ≤ n
      → lookup (key e n) a.ph_to_value ≡ none

-- No placeholder is taken back.
abbrev pub Extends : Mapping → Mapping → Type 0
Extends m m' = (ph v : Text) → lookup ph m ≡ some v → lookup ph m' ≡ some v

pub Names-Extends : {m m' : Mapping} {v ph : Text} → Extends m m' → Names m v ph → Names m' v ph
Names-Extends {m} {m'} {v} {ph} grow n = record {
  etype = n.etype;
  number = n.number;
  is_type = n.is_type;
  spelled = n.spelled;
  bound = grow ph v n.bound;
}

pub empty-IsIssued : IsIssued empty
empty-IsIssued = record { known = λ v ph h. cc; fresh = λ e n t h. refl }

lookup_other :
    {V : Type 0} (k j : Text) (v : V) (d : List (Text × V))
    → k ≢ j
    → lookup k ((j, v) ∷ d) ≡ lookup k d
lookup_other k j v d n = elim (Bool-cases (k == j)) [
  | inl e ↦ absurd (n ((list_beq_iff k j).0 e))
  | inr e ↦ rw e refl
]

lookup_same : {V : Type 0} (k : Text) (v : V) (d : List (Text × V)) → lookup k ((k, v) ∷ d) ≡ some v
lookup_same k v d = rw ((list_beq_iff k k).1 refl) refl

text_cases : (x y : Text) → (x ≡ y) ⊎ (x ≢ y)
text_cases x y = elim (Bool-cases (x == y)) [
  | inl e ↦ inl ((list_beq_iff x y).0 e)
  | inr e ↦ inr (λ q. cc ((list_beq_iff x y).1 q, e))
]

counter_same : (e : Text) (c : ℕ) (d : List (Text × ℕ)) → counter ((e, c) ∷ d) e ≡ c
unfolding counter
counter_same e c d = rw ((list_beq_iff e e).1 refl, counter) refl

counter_other :
    (e f : Text) (c : ℕ) (d : List (Text × ℕ)) → f ≢ e → counter ((e, c) ∷ d) f ≡ counter d f
unfolding counter
counter_other e f c d n = rw (lookup_other f e c d n, counter) refl

module _ (a : Anonymizer) (issued : IsIssued a) (v e : Text) (t : IsType e) where
  mint-Extends : Extends a.ph_to_value (mint a v e).1.ph_to_value
  unfolding mint
  mint-Extends ph w h = elim (text_cases ph (key e (counter a.type_counters e))) [
    | inl same ↦
        let unused = issued.fresh e (counter a.type_counters e) t (omega arith) in
        absurd (cc (unused, same, h))
    | inr other ↦ lookup_other ph (key e (counter a.type_counters e)) v a.ph_to_value other ∙ h
  ]

  mint-Names : Names (mint a v e).1.ph_to_value v (mint a v e).0
  unfolding mint
  mint-Names = record {
    etype = e;
    number = counter a.type_counters e;
    is_type = t;
    spelled = refl;
    bound = lookup_same (key e (counter a.type_counters e)) v a.ph_to_value;
  }

  mint-known :
      (w ph : Text)
      → lookup w (mint a v e).1.value_to_ph ≡ some ph
      → Names (mint a v e).1.ph_to_value w ph
  unfolding mint
  mint-known w ph h = elim (text_cases w v) [
    | inl same ↦
        let ph_same : (mint a v e).0 ≡ ph =
          cc (lookup_same v (mint a v e).0 a.value_to_ph, same, h) in
        rw (same, sym ph_same) mint-Names
    | inr other ↦
        Names-Extends mint-Extends
          (issued.known w ph (sym (lookup_other w v (mint a v e).0 a.value_to_ph other) ∙ h))
  ]

  mint-fresh :
      (f : Text) (n : ℕ)
      → IsType f
      → counter (mint a v e).1.type_counters f ≤ n
      → lookup (key f n) (mint a v e).1.ph_to_value ≡ none
  unfolding mint
  mint-fresh f n tf h =
      let c = counter a.type_counters e in
      elim (text_cases f e) [
        | inl same ↦
            let ahead : c + 1 ≤ n = rw (same, counter_same e (c + 1) a.type_counters) at h in
            lookup_other (key f n) (key e c) v a.ph_to_value
              (λ q. omega (arith, (key-injective f e n c tf t q).1, ahead))
            ∙ issued.fresh f n tf (rw same (omega (arith, ahead)))
        | inr other ↦
            lookup_other (key f n) (key e c) v a.ph_to_value
              (λ q. other ((key-injective f e n c tf t q).0))
            ∙ issued.fresh f n tf (rw (counter_other e f (c + 1) a.type_counters other) at h)
      ]

  mint-IsIssued : IsIssued (mint a v e).1
  mint-IsIssued = record { known = mint-known; fresh = mint-fresh }

-- What a step of the anonymiser does: it keeps the placeholders given so far, and names the value.
pub record Step (a : Anonymizer) (v ph : Text) (b : Anonymizer) : Type 0 where
  pub issued : IsIssued b
  pub grows : Extends a.ph_to_value b.ph_to_value
  pub names : Names b.ph_to_value v ph

pub placeholder_for-Step :
    (a : Anonymizer) (v etype : Text)
    → IsIssued a
    → Step a v (placeholder_for a v etype).0 (placeholder_for a v etype).1
unfolding placeholder_for
placeholder_for-Step a v etype h = elim (Option-cases (lookup v a.value_to_ph)) [
  | inl e ↦
      let t = clean_type-IsType etype in
      rw (e, placeholder_for)
        (record {
          issued = mint-IsIssued a h v (clean_type etype) t;
          grows = mint-Extends a h v (clean_type etype) t;
          names = mint-Names a h v (clean_type etype) t;
        })
  | inr (ph, e) ↦
      rw (e, placeholder_for) (record { issued = h; grows = λ p w q. q; names = h.known v ph e })
]
