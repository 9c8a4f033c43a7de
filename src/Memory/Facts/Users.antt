-- ===== src/Memory/Facts/Users.antt =====
-- What forgetting does to the facts that a user sees.
use cortex_go.Errors.{ok}
use cortex_go.Memory.Facts.{
  Fact, FactPrivacyPolicy, FactStore, fact_id, visible, sort_facts, list_facts, forget,
  without_user, forget_user,
}
use cortex_go.Prelude.{
  ℕ, ◌≡◌, ap, inl, inr, none, [], ◌∷◌, append_assoc, arith, if◌then◌else◌, Bool-cases, Str, str_eq,
  str_eq_iff, Dict, remove,
}

visible-without_user :
    (facts : Dict Fact) (p : FactPrivacyPolicy) (u v : Str) (now : ℕ)
    → visible p v now (without_user u facts) ≡ (if str_eq u v then [] else visible p v now facts)
unfolding visible without_user
visible-without_user [] p u v now = ground arith
visible-without_user ((id, f) ∷ facts) p u v now = ground (
  arith,
  visible-without_user facts p u v now,
  str_eq_iff f.user_id u,
  str_eq_iff f.user_id v,
  str_eq_iff u v,
)

-- After a user is forgotten, nothing is listed for that user, and what is listed for any other user
-- is what was listed before.
pub list_facts-forget_user :
    (s : FactStore) (u v : Str) (now : ℕ)
    → (list_facts none now (forget_user none s u).1 v).0
      ≡ (if str_eq u v then ok [] else (list_facts none now s v).0)
unfolding list_facts forget_user sort_facts
list_facts-forget_user s u v now = elim (Bool-cases (str_eq u v)) [
  | inl e ↦ rw (visible-without_user s.facts s.policy u v now) (rw e)
  | inr n ↦ rw (visible-without_user s.facts s.policy u v now) (rw n)
]

-- Two facts of different users are one fact of the store where the name of one user is that of the
-- other followed by a NUL byte and more: forgetting the one forgets the other.
pub forget-collision :
    (s : FactStore) (u k k' : Str) → forget none s (fact_id u k) k' ≡ forget none s u (fact_id k k')
unfolding forget
forget-collision s u k k' =
    ap (λ (id : Str). (none, record s { facts = remove id s.facts }))
      (append_assoc u (0 ∷ k) (0 ∷ k'))
