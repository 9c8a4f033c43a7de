-- ===== src/Memory/Sessions/Laws.antt =====
-- What a session store promises to the packages that use it, and that both stores keep the promise.
use cortex_go.Prelude.{
  ◌≡◌, refl, ◌≢◌, ◌⊎◌, inl, inr, Option, none, some, List, ◌++◌, arith, if◌then◌else◌, Bool-cases,
  Option-cases, Str, str_eq, str_eq_refl, str_eq_iff, is_empty, put, lookup-put,
}
use cortex_go.Errors.{Error, ok}
use cortex_go.Provider.{Message}
use cortex_go.Memory.Sessions.{Store, Sessions, session}
use cortex_go.Memory.Sessions.InMemory
use cortex_go.Memory.Sessions.InMemory.{in_memory}
use cortex_go.Memory.Sessions.File
use cortex_go.Memory.Sessions.File.{
  Codec, Conditions, FileStore, conditions, persist, change, file_store,
}

-- The operation `m ↦ r`, if it reports no error, makes `view` of the session `id` equal to `ms` and
-- leaves every other session as it was.
pub record Writes {M : Type 0} (view : M → Str → List Message) (id : Str) (ms : List Message)
    (m : M) (r : Option Error × M) : Type 0 where
  pub written : r.0 ≡ none → view r.1 id ≡ ms
  pub others : (j : Str) → id ≢ j → view r.1 j ≡ view m j

-- The same of the optional operation, where it is there.
abbrev pub Replaces :
    {M : Type 0}
    → (M → Str → List Message)
    → Option (M → Str → List Message → Option Error × M)
    → Type 0
Replaces view none = Unit
Replaces {M} view (some f) =
    (m : M) (id : Str) (ms : List Message) → Writes view id ms m (f m id ms)

-- The contract of memory.Store and memory.ReplaceStore, where `view` gives the messages of a session.
pub record Laws {M : Type 0} (store : Store M) (view : M → Str → List Message) : Type 0 where
  pub append_law :
      (m : M) (id : Str) (ms : List Message)
      → Writes view id (view m id ++ ms) m (store.append m id ms)
  pub list_law : (m : M) (id : Str) {r : List Message} → (store.list m id).0 ≡ ok r → r ≡ view m id
  pub list_keeps : (m : M) (id j : Str) → view (store.list m id).1 j ≡ view m j
  pub replace_law : Replaces view store.replace

pub session-put :
    (id j : Str) (ms : List Message) (m : Sessions)
    → session (put id ms m) j ≡ (if str_eq id j then ms else session m j)
unfolding session
session-put id j ms m = ground (arith, lookup-put id j ms m)

pub session-put_self : (id : Str) (ms : List Message) (m : Sessions) → session (put id ms m) id ≡ ms
session-put_self id ms m = rw (session-put, str_eq_refl)

pub session-put_ne :
    (id j : Str) (ms : List Message) (m : Sessions) → id ≢ j → session (put id ms m) j ≡ session m j
session-put_ne id j ms m h = rw session-put (ground (arith, str_eq_iff id j))

-- The map in memory keeps the contract, and no operation fails.
pub in_memory-Laws : Laws in_memory session
unfolding InMemory.append InMemory.list InMemory.replace
in_memory-Laws = record {
  append_law = λ m id ms. record {
    written = λ _. session-put_self id (session m id ++ ms) m;
    others = λ j h. session-put_ne id j (session m id ++ ms) m h;
  };
  list_law = λ m id e. cc;
  list_keeps = λ m id j. refl;
  replace_law = λ m id ms. record {
    written = λ _. session-put_self id ms m;
    others = λ j h. session-put_ne id j ms m h;
  };
}

module _ {T : Type 0} (codec : Codec T) where
  persist_sessions :
      (c : Conditions T) (s : FileStore T) → (persist codec c s).1.sessions ≡ s.sessions
  unfolding persist
  persist_sessions c s = ground arith

  -- A change puts its effect on the sessions, or nothing, in memory.
  change_sessions :
      (f : Sessions → Sessions) (s : FileStore T)
      → ((change codec f s).1.sessions ≡ f s.sessions)
        ⊎ (((change codec f s).1.sessions ≡ s.sessions) × ((change codec f s).0 ≢ none))
  unfolding change
  change_sessions f s = elim (Option-cases (conditions s.to_come).canceled) [
    | inl live ↦ inl (rw (live, change) (persist_sessions (conditions s.to_come) _))
    | inr (e, gone) ↦ inr (rw (gone, change), rw (gone, change) (λ p. cc))
  ]

  refused-Writes :
      (id : Str) (ms : List Message) (s : FileStore T) (r : Option Error × FileStore T)
      → r.1.sessions ≡ s.sessions
      → r.0 ≢ none
      → Writes (λ t. session t.sessions) id ms s r
  refused-Writes id ms s r e n = record { written = λ z. absurd (n z); others = λ j h. rw e }

  change-Writes :
      (id : Str) (ms : List Message) (s : FileStore T)
      → Writes (λ t. session t.sessions) id ms s (change codec (put id ms) s)
  change-Writes id ms s = elim (change_sessions (put id ms) s) [
    | inl e ↦ record {
      written = λ _. rw e (session-put_self id ms s.sessions);
      others = λ j h. rw e (session-put_ne id j ms s.sessions h);
    }
    | inr (e, n) ↦ refused-Writes id ms s _ e n
  ]

  append-Writes :
      (id : Str) (ms : List Message) (s : FileStore T)
      → Writes
          (λ t. session t.sessions)
          id
          (session s.sessions id ++ ms)
          s
          (File.append codec s id ms)
  unfolding File.append
  append-Writes id ms s = elim (Option-cases (conditions s.to_come).canceled) [
    | inl live ↦ elim (Bool-cases (is_empty id)) [
      | inl empty ↦ refused-Writes id _ s _ (ground arith) (ground arith)
      | inr named ↦ rw (live, File.append) (rw named (change-Writes id _ s))
    ]
    | inr (e, gone) ↦ refused-Writes id _ s _ (ground arith) (ground arith)
  ]

  -- The store in a file keeps the contract, whichever of its calls fail.
  pub file_store-Laws : Laws (file_store codec) (λ s. session s.sessions)
  unfolding File.append File.list File.replace
  file_store-Laws = record {
    append_law = λ s id ms. append-Writes id ms s;
    list_law = λ s id e. ground arith;
    list_keeps = λ s id j. ground arith;
    replace_law = λ s id ms. change-Writes id ms s;
  }
