-- ===== src/Memory/Facts/File/Agrees.antt =====
-- A fact store in a file does to its facts what the one in memory does, and the file follows.
use cortex_go.Memory.Facts.File.Writes.{RoundTrips, Breaks, Reopens}
use cortex_go.Memory.Facts.{Fact, FactPrivacyPolicy, FactStore, is_expired}
use cortex_go.Errors.{err, Error, Result, ok}
use cortex_go.Memory.Facts
use cortex_go.Memory.Facts.File
use cortex_go.Memory.Facts.File.{FactCodec, Failures, FileFactStore, open_fact_store, write_failure}
use cortex_go.Prelude.{ℕ, ◌≡◌, false, Option, none, some, List, [], All, Str, Dict}

pub data FileCall : Type 0 where
  upserting : Failures → ℕ → Fact → FileCall
  listing : Failures → ℕ → Str → FileCall
  forgetting : Failures → Str → Str → FileCall
  forgetting_user : Failures → Str → FileCall

-- The conditions of a call.
abbrev pub failures_of : FileCall → Failures
failures_of (FileCall.upserting c now f) = c
failures_of (FileCall.listing c now user) = c
failures_of (FileCall.forgetting c user key) = c
failures_of (FileCall.forgetting_user c user) = c

-- An error as an answer; a call other than List answers with no facts.
abbrev pub told {ℓ} : {S : Type ℓ} → Option Error × S → Result (List Fact) × S
told (none, s) = (ok [], s)
told (some e, s) = (err e, s)

-- List has nothing to write where no fact has expired.
pub data IsQuiet (facts : Dict Fact) : FileCall → Type 0 where
  quiet :
      {c : Failures} {now : ℕ} {user : Str}
      → All (λ (e : Str × Fact). is_expired e.1 now ≡ false) facts
      → IsQuiet facts (FileCall.listing c now user)

module _ {T : Type 0} (codec : FactCodec T) where
  -- A call on the file's store, and the same call on a store in memory.
  unfoldable pub serve : FileFactStore T → FileCall → Result (List Fact) × FileFactStore T
  serve s (FileCall.upserting c now f) = told (File.upsert codec c now s f)
  serve s (FileCall.listing c now user) = File.list_facts codec c now s user
  serve s (FileCall.forgetting c user key) = told (File.forget codec c s user key)
  serve s (FileCall.forgetting_user c user) = told (File.forget_user codec c s user)

  unfoldable pub serve_in_memory : FactStore → FileCall → Result (List Fact) × FactStore
  serve_in_memory s (FileCall.upserting c now f) = told (Facts.upsert c.canceled now s f)
  serve_in_memory s (FileCall.listing c now user) = Facts.list_facts c.canceled now s user
  serve_in_memory s (FileCall.forgetting c user key) = told (Facts.forget c.canceled s user key)
  serve_in_memory s (FileCall.forgetting_user c user) = told (Facts.forget_user c.canceled s user)

  module _ (settled : Dict Fact → Dict Fact) (round : RoundTrips codec settled) where
    -- How a call on the file's store compares with the same call on a store in memory.
    pub data Follows (s : FileFactStore T) (call : FileCall)
        (memory : Result (List Fact) × FactStore) (q : Result (List Fact) × FileFactStore T)
        : Type 0 where
      -- Both refuse with one error and change nothing.
      refused : {e : Error} → memory ≡ (err e, s.store) → q ≡ (err e, s) → Follows s call memory q
      -- Both answer alike with the same facts, and the file is written.
      written :
          {answer : List Fact}
          → memory.0 ≡ ok answer
          → q.0 ≡ ok answer
          → q.1.store ≡ memory.1
          → Reopens codec settled q.1
          → Follows s call memory q
      -- Both answer alike with the same facts, and there is nothing to write.
      unwritten :
          memory.0 ≡ q.0
          → q.1.store ≡ memory.1
          → q.1.file ≡ s.file
          → IsQuiet s.store.facts call
          → Follows s call memory q
      -- A write fails: the facts in memory are the same, and the file is as it was.
      broken :
          {e : Error} {answer : List Fact}
          → memory.0 ≡ ok answer
          → q.0 ≡ err e
          → q.1.store ≡ memory.1
          → q.1.file ≡ s.file
          → Breaks codec (failures_of call) memory.1.facts
          → Follows s call memory q
