-- ===== src/Tests/Facts.antt =====
-- The fact store, with a policy that takes no sensitive facts.
use cortex_go.Errors.{external, ok}
use cortex_go.Memory.Facts.File
use cortex_go.Memory.Facts.File.{
  FactCodec, Failures, FileFactStore, open_fact_store, persist_facts, write_failure,
}
use cortex_go.Memory.Facts.File.Agrees.{FileCall, serve, serve_in_memory}
use cortex_go.Memory.Facts.{
  Fact, FactPrivacyPolicy, FactStore, new_fact_store, validate_fact, inherit, limit_life,
  normalize_fact, stamp, is_expired, visible, str_lt, insert_fact, sort_facts, upsert, unexpired,
  list_facts, forget, without_user, forget_user,
}
use cortex_go.Memory.Facts.Policy.{FactCall, step, run, Allowed, run-Allowed}
use cortex_go.Memory.Facts.Users.{list_facts-forget_user}
use cortex_go.Prelude.{
  ℕ, ◌+◌, ◌≡◌, refl, true, false, none, some, List, [], ◌∷◌, if◌then◌else◌, Str, bytes, str_eq,
  Dict, lookup, put, remove,
}

program : Unit {0}
unfolding new_fact_store validate_fact inherit limit_life normalize_fact stamp is_expired visible
    str_lt insert_fact sort_facts upsert unexpired list_facts forget without_user forget_user step
    run lookup put remove str_eq serve serve_in_memory File.forget persist_facts write_failure
program = tt

abbrev policy : FactPrivacyPolicy
policy = record { allow_sensitive = false; max_value_bytes = 8; default_ttl = 100 }

abbrev fact : Str → Str → Fact
fact user key = record {
  user_id = user;
  key = key;
  value = bytes "v";
  source = [];
  created_at = 0;
  updated_at = 0;
  sensitive = false;
  expires_at = 0;
}

abbrev stored : Str → Str → ℕ → Fact
stored user key now = record (fact user key) {
  created_at = now;
  updated_at = now;
  expires_at = now + 100;
}

abbrev ann : Str
ann = bytes "ann"

abbrev bob : Str
bob = bytes "bob"

-- The sensitive fact is refused.
abbrev calls : List FactCall
calls =
    FactCall.upserting none 1 (fact ann (bytes "tea"))
    ∷ FactCall.upserting none 2 (fact ann (bytes "city"))
    ∷ FactCall.upserting none 3 (record (fact ann (bytes "pin")) { sensitive = true })
    ∷ FactCall.upserting none 4 (fact bob (bytes "city"))
    ∷ []

abbrev store : FactStore
store = run (new_fact_store policy) calls

ann_listed :
    (list_facts none 50 store ann).0
    ≡ ok (stored ann (bytes "city") 2 ∷ stored ann (bytes "tea") 1 ∷ [])
unfolding program
ann_listed = refl

all_expired : (list_facts none 200 store ann).0 ≡ ok []
unfolding program
all_expired = refl

run-Allowed_example : Allowed policy (run (new_fact_store policy) calls).facts
run-Allowed_example = run-Allowed policy calls

list_facts-forget_user_example :
    (list_facts none 50 (forget_user none store ann).1 bob).0
    ≡ (if str_eq ann bob then ok [] else (list_facts none 50 store bob).0)
list_facts-forget_user_example = list_facts-forget_user store ann bob 50

-- A file that holds the facts themselves.
abbrev plain : FactCodec (Dict Fact)
plain = record { encode = ok; decode = λ m. ok (some m); is_blank_file = λ m. false }

abbrev torn : Failures
torn = record {
  canceled = none;
  directory = none;
  create = none;
  secure = none;
  write = some (external 1);
  close = none;
  rename = none;
}

abbrev held : FileFactStore (Dict Fact)
held = record { store = store; file = some store.facts }

torn_keeps_file :
    (serve plain held (FileCall.forgetting torn ann (bytes "tea"))).1.file ≡ some store.facts
unfolding program
torn_keeps_file = refl
