-- ===== src/Memory/Facts/File.antt =====
-- internal/memory/facts.go: `FileFactStore`, the facts in one JSON document. The temporary file is
-- removed at the end of every write, so it is no part of the state.
pub mod Writes
pub mod Agrees
use cortex_go.Memory.Sessions.File.{Opened, opened, nil_map}
use cortex_go.Errors.{
  rename_failed, close_failed, write_failed, decode_failed, secure_failed, read_failed,
  encode_failed, directory_failed, err, ok, temporary_failed, Error, Result,
}
use cortex_go.Memory.Facts.{
  Fact, FactPrivacyPolicy, FactStore, fact_id, normalize_fact, stamp, is_expired, visible,
  unexpired, sort_facts, without_user,
}
use cortex_go.Prelude.{
  ℕ, Bool, false, ◌||◌, Option, none, some, List, [], ◌∷◌, if◌then◌else◌, Str, Dict, lookup, put,
  remove,
}

-- encoding/json at the type of the facts, over the type of what a file holds; a text that holds null
-- decodes to `none`, and `is_blank_file` says that a file has no bytes.
pub record FactCodec (T : Type 0) : Type 0 where
  pub encode : Dict Fact → Result T
  pub decode : T → Result (Option (Dict Fact))
  pub is_blank_file : T → Bool

-- The end of a call's context, and the call of package os that fails.
pub record Failures : Type 0 where
  pub canceled : Option Error
  pub directory : Option Error
  pub create : Option Error
  pub secure : Option Error
  pub write : Option Error
  pub close : Option Error
  pub rename : Option Error

pub record FileFactStore (T : Type 0) : Type 0 where
  pub store : FactStore
  pub file : Option T

-- The calls of package os that follow the encoding, in their order.
unfoldable pub write_failure : Failures → Option Error
write_failure c = elim c.create [
  | some e ↦ some (temporary_failed e)
  | none ↦ elim c.secure [
    | some e ↦ some (secure_failed e)
    | none ↦ elim c.write [
      | some e ↦ some (write_failed e)
      | none ↦ elim c.close [
        | some e ↦ some (close_failed e)
        | none ↦ elim c.rename [ some e ↦ some (rename_failed e) | none ↦ none ]
      ]
    ]
  ]
]

module _ {T : Type 0} (codec : FactCodec T) where
  -- `failure` is an error of os.ReadFile other than that the file is not there.
  unfoldable pub open_fact_store :
      FactPrivacyPolicy → Option Error → Option T → Result (Opened (FileFactStore T))
  open_fact_store policy failure none =
      ok (opened (record { store = record { facts = []; policy = policy }; file = none }))
  open_fact_store policy (some e) (some text) = err (read_failed e)
  open_fact_store policy none (some text) =
      if codec.is_blank_file text
      then ok (opened (record { store = record { facts = []; policy = policy }; file = some text }))
      else elim (codec.decode text) [
        | err e ↦ err (decode_failed e)
        | ok decoded ↦ ok (elim decoded [
          | none ↦ nil_map
          | some facts ↦
              opened
                (record { store = record { facts = facts; policy = policy }; file = some text })
        ])
      ]

  -- persistLocked, of the facts as they are now
  unfoldable pub persist_facts : Failures → FileFactStore T → Option Error × FileFactStore T
  persist_facts c s = elim c.directory [
    | some e ↦ (some (directory_failed e), s)
    | none ↦ elim (codec.encode s.store.facts) [
      | err e ↦ (some (encode_failed e), s)
      | ok text ↦ elim (write_failure c) [
        | some e ↦ (some e, s)
        | none ↦ (none, record s { file = some text })
      ]
    ]
  ]

  abbrev pub with_facts : FileFactStore T → Dict Fact → FileFactStore T
  with_facts s facts = record s { store = record { facts = facts; policy = s.store.policy } }

  unfoldable pub upsert : Failures → ℕ → FileFactStore T → Fact → Option Error × FileFactStore T
  upsert c now s f = elim c.canceled [
    | some e ↦ (some e, s)
    | none ↦
        let id = fact_id f.user_id f.key in
        elim (normalize_fact f s.store.policy (lookup id s.store.facts) now) [
          | err e ↦ (some e, s)
          | ok f' ↦ persist_facts c (with_facts s (put id (stamp f' now) s.store.facts))
        ]
  ]

  -- `changed` of List
  unfoldable pub has_expired : ℕ → Dict Fact → Bool
  has_expired now [] = false
  has_expired now ((id, f) ∷ facts) = is_expired f now || has_expired now facts

  unfoldable pub list_facts :
      Failures → ℕ → FileFactStore T → Str → Result (List Fact) × FileFactStore T
  list_facts c now s user = elim c.canceled [
    | some e ↦ (err e, s)
    | none ↦
        let found = sort_facts (visible s.store.policy user now s.store.facts) in
        let kept = with_facts s (unexpired now s.store.facts) in
        if has_expired now s.store.facts
        then (let (failure, s') = persist_facts c kept in
            elim failure [ some e ↦ (err e, s') | none ↦ (ok found, s') ])
        else (ok found, kept)
  ]

  unfoldable pub forget : Failures → FileFactStore T → Str → Str → Option Error × FileFactStore T
  forget c s user key = elim c.canceled [
    | some e ↦ (some e, s)
    | none ↦ persist_facts c (with_facts s (remove (fact_id user key) s.store.facts))
  ]

  unfoldable pub forget_user : Failures → FileFactStore T → Str → Option Error × FileFactStore T
  forget_user c s user = elim c.canceled [
    | some e ↦ (some e, s)
    | none ↦ persist_facts c (with_facts s (without_user user s.store.facts))
  ]
