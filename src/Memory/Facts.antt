-- ===== src/Memory/Facts.antt =====
-- internal/memory/facts.go: `InMemoryFactStore`. Times are in nanoseconds, 0 for Go's zero time; a
-- limit of 0 bytes or a time to live of 0 stands for one that is not positive. `canceled` is the
-- error of the context of a call, if it is done.
pub mod Policy
pub mod Users
pub mod File
use cortex_go.Errors.{value_too_long, sensitive_disabled, ok, fact_required, err, Result, Error}
use cortex_go.Prelude.{
  ℕ, ◌+◌, Bool, true, false, not, ◌&&◌, ◌||◌, Option, none, some, List, [], ◌∷◌, ◌++◌, ltb, leb,
  ◌==◌, if◌then◌else◌, length, Str, str_eq, is_empty, Dict, lookup, put, remove,
}

pub record Fact : Type 0 where
  pub user_id : Str
  pub key : Str
  pub value : Str
  pub source : Str
  pub created_at : ℕ
  pub updated_at : ℕ
  pub sensitive : Bool
  pub expires_at : ℕ

pub record FactPrivacyPolicy : Type 0 where
  pub allow_sensitive : Bool
  pub max_value_bytes : ℕ
  pub default_ttl : ℕ

pub record FactStore : Type 0 where
  pub facts : Dict Fact
  pub policy : FactPrivacyPolicy

-- NewInMemoryFactStoreWithPolicy
unfoldable pub new_fact_store : FactPrivacyPolicy → FactStore
new_fact_store policy = record { facts = []; policy = policy }

-- userID + "\x00" + key
abbrev pub fact_id : Str → Str → Str
fact_id user key = user ++ (0 ∷ key)

unfoldable pub validate_fact : Fact → FactPrivacyPolicy → Option Error
validate_fact f p =
    if is_empty f.user_id || is_empty f.key
    then some fact_required
    else if f.sensitive && not p.allow_sensitive
    then some sensitive_disabled
    else if ltb 0 p.max_value_bytes && ltb p.max_value_bytes (length f.value)
    then some value_too_long
    else none

-- if existing != nil { ... }
unfoldable pub inherit : Fact → Option Fact → Fact
inherit f none = f
inherit f (some old) = record f {
  created_at = old.created_at;
  expires_at = if f.expires_at == 0 then old.expires_at else f.expires_at;
}

-- fact.ExpiresAt.IsZero() && policy.DefaultTTL > 0
unfoldable pub limit_life : Fact → FactPrivacyPolicy → ℕ → Fact
limit_life f p now =
    if f.expires_at == 0 && ltb 0 p.default_ttl
    then record f { expires_at = now + p.default_ttl }
    else f

unfoldable pub normalize_fact : Fact → FactPrivacyPolicy → Option Fact → ℕ → Result Fact
normalize_fact f p existing now = elim (validate_fact f p) [
  | some e ↦ err e
  | none ↦ ok (limit_life (inherit f existing) p now)
]

unfoldable pub is_expired : Fact → ℕ → Bool
is_expired f now = not (f.expires_at == 0) && leb f.expires_at now

-- The times that Upsert sets.
unfoldable pub stamp : Fact → ℕ → Fact
stamp f now = record f {
  created_at = if f.created_at == 0 then now else f.created_at;
  updated_at = now;
}

unfoldable pub upsert : Option Error → ℕ → FactStore → Fact → Option Error × FactStore
upsert (some e) now s f = (some e, s)
upsert none now s f =
    let id = fact_id f.user_id f.key in
    elim (normalize_fact f s.policy (lookup id s.facts) now) [
      | err e ↦ (some e, s)
      | ok f' ↦ (none, record s { facts = put id (stamp f' now) s.facts })
    ]

-- The facts that List returns, before it sorts them.
unfoldable pub visible : FactPrivacyPolicy → Str → ℕ → Dict Fact → List Fact
visible p user now [] = []
visible p user now ((id, f) ∷ facts) =
    let rest = visible p user now facts in
    if is_expired f now
    then rest
    else if f.sensitive && not p.allow_sensitive
    then rest
    else if str_eq f.user_id user
    then f ∷ rest
    else rest

-- The facts that List keeps.
unfoldable pub unexpired : ℕ → Dict Fact → Dict Fact
unexpired now [] = []
unexpired now ((id, f) ∷ facts) =
    let rest = unexpired now facts in if is_expired f now then rest else (id, f) ∷ rest

-- a < b on Go's strings
unfoldable pub str_lt : Str → Str → Bool
str_lt s [] = false
str_lt [] (d ∷ t) = true
str_lt (c ∷ s) (d ∷ t) = let rest = str_lt s t in if c == d then rest else ltb c d

-- sort.Slice by the keys, which differ within one user
unfoldable pub insert_fact : Fact → List Fact → List Fact
insert_fact f [] = f ∷ []
insert_fact f (g ∷ gs) =
    let rest = insert_fact f gs in if str_lt g.key f.key then g ∷ rest else f ∷ g ∷ gs

unfoldable pub sort_facts : List Fact → List Fact
sort_facts [] = []
sort_facts (f ∷ fs) = insert_fact f (sort_facts fs)

unfoldable pub list_facts : Option Error → ℕ → FactStore → Str → Result (List Fact) × FactStore
list_facts (some e) now s user = (err e, s)
list_facts none now s user = (
  ok (sort_facts (visible s.policy user now s.facts)),
  record s { facts = unexpired now s.facts },
)

unfoldable pub forget : Option Error → FactStore → Str → Str → Option Error × FactStore
forget (some e) s user key = (some e, s)
forget none s user key = (none, record s { facts = remove (fact_id user key) s.facts })

unfoldable pub without_user : Str → Dict Fact → Dict Fact
without_user user [] = []
without_user user ((id, f) ∷ facts) =
    let rest = without_user user facts in if str_eq f.user_id user then rest else (id, f) ∷ rest

unfoldable pub forget_user : Option Error → FactStore → Str → Option Error × FactStore
forget_user (some e) s user = (some e, s)
forget_user none s user = (none, record s { facts = without_user user s.facts })
