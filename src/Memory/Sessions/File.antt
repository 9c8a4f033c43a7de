-- ===== src/Memory/Sessions/File.antt =====
-- internal/memory/file_store.go: `FileStore`, sessions in one JSON document.
use cortex_go.Prelude.{
  Option, none, some, List, [], ◌∷◌, ◌++◌, if◌then◌else◌, Str, is_empty, put, remove,
}
use cortex_go.Errors.{
  Error, Result, ok, err, session_required, encode_failed, directory_failed, write_failed,
  rename_failed, decode_failed, read_failed, path_required,
}
use cortex_go.Provider.{Message}
use cortex_go.Memory.Sessions.{Store, Sessions, session}

-- encoding/json at the type of the sessions; `T` is the type of what a file holds. A text that holds
-- null decodes to `none`.
pub record Codec (T : Type 0) : Type 0 where
  pub encode : Sessions → Result T
  pub decode : T → Result (Option Sessions)

-- What happens to one operation from outside: whether its context is done, and which call of
-- package os fails. A write that fails leaves `torn` in the temporary file.
pub record Conditions (T : Type 0) : Type 0 where
  pub canceled : Option Error
  pub directory : Option Error
  pub write : Option Error
  pub torn : Option T
  pub rename : Option Error

abbrev pub calm : {T : Type 0} → Conditions T
calm = record { canceled = none; directory = none; write = none; torn = none; rename = none }

-- What opening a file gives: a store, or one whose map is nil, since the file holds null. The first
-- write to a nil map panics, so such a store is not followed any further.
pub data Opened (S : Type 0) : Type 0 where
  opened : S → Opened S
  nil_map : Opened S

-- The store's file, the temporary file beside it, and the conditions of the operations to come.
pub record FileStore (T : Type 0) : Type 0 where
  pub sessions : Sessions
  pub file : Option T
  pub temporary : Option T
  pub to_come : List (Conditions T)

abbrev pub conditions : {T : Type 0} → List (Conditions T) → Conditions T
conditions [] = calm
conditions (c ∷ cs) = c

abbrev pub later : {T : Type 0} → List (Conditions T) → List (Conditions T)
later [] = []
later (c ∷ cs) = cs

module _ {T : Type 0} (codec : Codec T) where
  -- `failure` is an error of os.ReadFile other than that the file is not there.
  unfoldable pub open_file_store :
      Str → Option Error → Option T → List (Conditions T) → Result (Opened (FileStore T))
  open_file_store path failure file cs = if is_empty path then err path_required else elim file [
    | none ↦ ok (opened (record { sessions = []; file = none; temporary = none; to_come = cs }))
    | some text ↦ elim failure [
      | some e ↦ err (read_failed e)
      | none ↦ elim (codec.decode text) [
        | err e ↦ err (decode_failed e)
        | ok decoded ↦ ok (elim decoded [
          | none ↦ nil_map
          | some sessions ↦
              opened
                (record { sessions = sessions; file = some text; temporary = none; to_come = cs })
        ])
      ]
    ]
  ]

  unfoldable pub persist : Conditions T → FileStore T → Option Error × FileStore T
  persist c s = elim (codec.encode s.sessions) [
    | err e ↦ (some (encode_failed e), s)
    | ok text ↦ elim c.directory [
      | some e ↦ (some (directory_failed e), s)
      | none ↦ elim c.write [
        | some e ↦ (some (write_failed e), record s { temporary = c.torn })
        | none ↦ elim c.rename [
          | some e ↦ (some (rename_failed e), record s { temporary = some text })
          | none ↦ (none, record s { file = some text; temporary = none })
        ]
      ]
    ]
  ]

  -- The operation on the sessions, then the write, unless the context is done.
  unfoldable pub change : (Sessions → Sessions) → FileStore T → Option Error × FileStore T
  unfolding persist
  change f s =
      let c = conditions s.to_come in
      elim c.canceled [
        | some e ↦ (some e, record s { to_come = later s.to_come })
        | none ↦ persist c (record s { sessions = f s.sessions; to_come = later s.to_come })
      ]

  unfoldable pub append : FileStore T → Str → List Message → Option Error × FileStore T
  unfolding change
  append s id ms = elim (conditions s.to_come).canceled [
    | some e ↦ (some e, record s { to_come = later s.to_come })
    | none ↦
        if is_empty id
        then (some session_required, record s { to_come = later s.to_come })
        else change (λ m. put id (session m id ++ ms) m) s
  ]

  unfoldable pub list : FileStore T → Str → Result (List Message) × FileStore T
  list s id = elim (conditions s.to_come).canceled [
    | some e ↦ (err e, record s { to_come = later s.to_come })
    | none ↦ (ok (session s.sessions id), record s { to_come = later s.to_come })
  ]

  unfoldable pub replace : FileStore T → Str → List Message → Option Error × FileStore T
  unfolding change
  replace s id ms = change (put id ms) s

  unfoldable pub delete : FileStore T → Str → Option Error × FileStore T
  unfolding change
  delete s id = change (remove id) s

  abbrev pub file_store : Store (FileStore T)
  file_store = record { append = append; list = list; replace = some replace }
