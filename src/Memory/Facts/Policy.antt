-- ===== src/Memory/Facts/Policy.antt =====
-- The privacy policy of a fact store holds of every fact that it stores.
use cortex_go.Memory.Facts.{
  is_expired, Fact, FactPrivacyPolicy, FactStore, new_fact_store, validate_fact, inherit,
  limit_life, normalize_fact, stamp, upsert, unexpired, list_facts, forget, without_user,
  forget_user,
}
use cortex_go.Errors.{Error}
use cortex_go.Prelude.{
  ℕ, ◌≤◌, ◌≡◌, refl, sym, subst, ◌∙◌, ◌≢◌, ◌⊎◌, inl, inr, true, false, Option, none, some, List, [],
  ◌∷◌, arith, Bool-cases, Option-cases, length, All, Str, str_eq, is_empty, Dict, put, remove,
}

pub data FactCall : Type 0 where
  upserting : Option Error → ℕ → Fact → FactCall
  listing : Option Error → ℕ → Str → FactCall
  forgetting : Option Error → Str → Str → FactCall
  forgetting_user : Option Error → Str → FactCall

unfoldable pub step : FactStore → FactCall → FactStore
step s (FactCall.upserting canceled now f) = (upsert canceled now s f).1
step s (FactCall.listing canceled now user) = (list_facts canceled now s user).1
step s (FactCall.forgetting canceled user key) = (forget canceled s user key).1
step s (FactCall.forgetting_user canceled user) = (forget_user canceled s user).1

unfoldable pub run : FactStore → List FactCall → FactStore
run s [] = s
run s (c ∷ cs) = run (step s c) cs

-- What the policy asks of a fact that is stored.
pub record Obeys (p : FactPrivacyPolicy) (f : Fact) : Type 0 where
  pub has_user : f.user_id ≢ []
  pub has_key : f.key ≢ []
  pub openness : (f.sensitive ≡ false) ⊎ (p.allow_sensitive ≡ true)
  pub size : (p.max_value_bytes ≡ 0) ⊎ (length f.value ≤ p.max_value_bytes)

abbrev pub Allowed : FactPrivacyPolicy → Dict Fact → Type 0
Allowed p = All (λ (e : Str × Fact). Obeys p e.1)

is_empty-ne-nil : (s : Str) → is_empty s ≡ false → s ≢ []
is_empty-ne-nil [] h = cc h
is_empty-ne-nil (b ∷ s) h = λ e. cc e

validate_fact-Obeys : (f : Fact) (p : FactPrivacyPolicy) → validate_fact f p ≡ none → Obeys p f
unfolding validate_fact
validate_fact-Obeys f p h = record {
  has_user = is_empty-ne-nil f.user_id (ground arith);
  has_key = is_empty-ne-nil f.key (ground arith);
  openness = ground arith;
  size = ground arith;
}

put-Allowed :
    (facts : Dict Fact) (p : FactPrivacyPolicy) (id : Str) (f : Fact)
    → Obeys p f
    → Allowed p facts
    → Allowed p (put id f facts)
unfolding put
put-Allowed [] p id f v h = (v, tt)
put-Allowed ((k, g) ∷ facts) p id f v h = elim (Bool-cases (str_eq k id)) [
  | inl e ↦ rw e (v, h.1)
  | inr n ↦ rw n (h.0, put-Allowed facts p id f v h.1)
]

remove-Allowed :
    (facts : Dict Fact) (p : FactPrivacyPolicy) (id : Str)
    → Allowed p facts
    → Allowed p (remove id facts)
unfolding remove
remove-Allowed [] p id h = tt
remove-Allowed ((k, g) ∷ facts) p id h = elim (Bool-cases (str_eq k id)) [
  | inl e ↦ rw e (remove-Allowed facts p id h.1)
  | inr n ↦ rw n (h.0, remove-Allowed facts p id h.1)
]

unexpired-Allowed :
    (facts : Dict Fact) (p : FactPrivacyPolicy) (now : ℕ)
    → Allowed p facts
    → Allowed p (unexpired now facts)
unfolding unexpired
unexpired-Allowed [] p now h = tt
unexpired-Allowed ((k, g) ∷ facts) p now h = elim (Bool-cases (is_expired g now)) [
  | inl e ↦ rw e (unexpired-Allowed facts p now h.1)
  | inr n ↦ rw n (h.0, unexpired-Allowed facts p now h.1)
]

without_user-Allowed :
    (facts : Dict Fact) (p : FactPrivacyPolicy) (user : Str)
    → Allowed p facts
    → Allowed p (without_user user facts)
unfolding without_user
without_user-Allowed [] p user h = tt
without_user-Allowed ((k, g) ∷ facts) p user h = elim (Bool-cases (str_eq g.user_id user)) [
  | inl e ↦ rw e (without_user-Allowed facts p user h.1)
  | inr n ↦ rw n (h.0, without_user-Allowed facts p user h.1)
]

-- The times that a fact is given do not matter to the policy.
validate_fact-stamp :
    (f : Fact) (old : Option Fact) (p : FactPrivacyPolicy) (now : ℕ)
    → validate_fact (stamp (limit_life (inherit f old) p now) now) p ≡ validate_fact f p
unfolding validate_fact stamp limit_life inherit
validate_fact-stamp f none p now = ground arith
validate_fact-stamp f (some g) p now = ground arith

upsert-Allowed :
    (canceled : Option Error) (now : ℕ) (s : FactStore) (f : Fact)
    → Allowed s.policy s.facts
    → Allowed s.policy (upsert canceled now s f).1.facts
unfolding upsert normalize_fact
upsert-Allowed (some e) now s f h = h
upsert-Allowed none now s f h = elim (Option-cases (validate_fact f s.policy)) [
  | inr (e, bad) ↦ rw (bad, upsert) h
  | inl good ↦
      rw (good, upsert)
        (put-Allowed s.facts s.policy _ _
          (validate_fact-Obeys _ s.policy (validate_fact-stamp f _ s.policy now ∙ good)) h)
]

policy-step : (s : FactStore) (c : FactCall) → (step s c).policy ≡ s.policy
unfolding step upsert list_facts forget forget_user normalize_fact
policy-step s (FactCall.upserting (some e) now f) = refl
policy-step s (FactCall.upserting none now f) = ground arith
policy-step s (FactCall.listing (some e) now user) = refl
policy-step s (FactCall.listing none now user) = refl
policy-step s (FactCall.forgetting (some e) user key) = refl
policy-step s (FactCall.forgetting none user key) = refl
policy-step s (FactCall.forgetting_user (some e) user) = refl
policy-step s (FactCall.forgetting_user none user) = refl

step-Allowed :
    (s : FactStore) (c : FactCall) → Allowed s.policy s.facts → Allowed s.policy (step s c).facts
unfolding step list_facts forget forget_user
step-Allowed s (FactCall.upserting canceled now f) h = upsert-Allowed canceled now s f h
step-Allowed s (FactCall.listing (some e) now user) h = h
step-Allowed s (FactCall.listing none now user) h = unexpired-Allowed s.facts s.policy now h
step-Allowed s (FactCall.forgetting (some e) user key) h = h
step-Allowed s (FactCall.forgetting none user key) h = remove-Allowed s.facts s.policy _ h
step-Allowed s (FactCall.forgetting_user (some e) user) h = h
step-Allowed s (FactCall.forgetting_user none user) h = without_user-Allowed s.facts s.policy user h

run-Allowed_from :
    (cs : List FactCall) (s : FactStore)
    → Allowed s.policy s.facts
    → Allowed s.policy (run s cs).facts
unfolding run
run-Allowed_from [] s h = h
run-Allowed_from (c ∷ cs) s h =
    subst (λ p. Allowed p (run (step s c) cs).facts) (policy-step s c)
      (run-Allowed_from cs (step s c)
        (subst (λ p. Allowed p (step s c).facts) (sym (policy-step s c)) (step-Allowed s c h)))

-- Whatever calls a fact store serves, each fact that it holds has a user and a key, is not sensitive
-- unless the policy allows that, and has no value longer than the policy's limit, if it is not 0.
pub run-Allowed :
    (policy : FactPrivacyPolicy) (cs : List FactCall)
    → Allowed policy (run (new_fact_store policy) cs).facts
unfolding new_fact_store
run-Allowed policy cs = run-Allowed_from cs (new_fact_store policy) tt
