-- ===== src/Memory/Sessions/Durable.antt =====
-- What a `FileStore` gives back when it is opened again after a crash.
use cortex_go.Memory.Sessions.File.{
  opened, Codec, Conditions, FileStore, conditions, persist, change, calm, open_file_store,
}
use cortex_go.Prelude.{
  ◌≡◌, refl, sym, subst, ◌≢◌, inl, inr, false, Option, none, some, List, [], ◌∷◌, ◌++◌,
  if◌then◌else◌, Bool-cases, Option-cases, is_some, Str, is_empty, put, remove,
}
use cortex_go.Errors.{Error, ok, Result-cases}
use cortex_go.Provider.{Message}
use cortex_go.Memory.Sessions.{Sessions, session}
use cortex_go.Memory.Sessions.File

pub data Change : Type 0 where
  append replace : Str → List Message → Change
  delete : Str → Change

-- What encoding/json documents of its two functions: `settled` is what a text keeps of the sessions,
-- which replaces bytes that are not UTF-8 and sorts the keys.
abbrev pub RoundTrips : {T : Type 0} → Codec T → (Sessions → Sessions) → Type 0
RoundTrips {T} codec settled =
    (m : Sessions) (text : T) → codec.encode m ≡ ok text → codec.decode text ≡ ok (some (settled m))

module _ {T : Type 0} (codec : Codec T) (settled : Sessions → Sessions) where
  unfoldable pub step : FileStore T → Change → Option Error × FileStore T
  step s (append id ms) = File.append codec s id ms
  step s (replace id ms) = File.replace codec s id ms
  step s (delete id) = File.delete codec s id

  -- What a text keeps of the sessions of the last operation that reported no error, `saved` before the
  -- first.
  unfoldable pub run : Sessions → FileStore T → List Change → Sessions × FileStore T
  run saved s [] = (saved, s)
  run saved s (c ∷ cs) =
      let (failure, s') = step s c in
      run (if is_some failure then saved else settled s'.sessions) s' cs

  -- The sessions that the file holds; a missing file stands for none.
  abbrev pub Holds : Option T → Sessions → Type 0
  Holds none saved = saved ≡ []
  Holds (some text) saved = codec.decode text ≡ ok (some saved)

  -- An operation on `s` that reports no error leaves a file with its sessions, and one that reports
  -- an error leaves the file as it was.
  record Stores (s : FileStore T) (r : Option Error × FileStore T) : Type 0 where
    stored : r.0 ≡ none → Holds r.1.file (settled r.1.sessions)
    kept : r.0 ≢ none → r.1.file ≡ s.file

  refused : (s s' : FileStore T) (e : Error) → s'.file ≡ s.file → Stores s (some e, s')
  refused s s' e p = record { stored = λ z. cc; kept = λ _. p }

  next-Holds :
      (saved : Sessions) (s : FileStore T) (r : Option Error × FileStore T)
      → Stores s r
      → Holds s.file saved
      → Holds r.1.file (if is_some r.0 then saved else settled r.1.sessions)
  next-Holds saved s (none, s') st h = st.stored refl
  next-Holds saved s (some e, s') st h = subst (λ f. Holds f saved) (sym (st.kept (λ z. cc))) h

  reopen-Holds :
      (path : Str) (file : Option T) (saved : Sessions) (to_come : List (Conditions T))
      → is_empty path ≡ false
      → Holds file saved
      → (t : FileStore T) × (open_file_store codec path none file to_come ≡ ok (opened t))
        × (t.sessions ≡ saved)
  unfolding open_file_store
  reopen-Holds path none saved to_come named h = (
    record { sessions = []; file = none; temporary = none; to_come = to_come },
    rw named refl,
    sym h,
  )
  reopen-Holds path (some text) saved to_come named h = (
    record { sessions = saved; file = some text; temporary = none; to_come = to_come },
    rw named (rw h refl),
    refl,
  )

  module _ (round : RoundTrips codec settled) where
    persist-Stores : (c : Conditions T) (s : FileStore T) → Stores s (persist codec c s)
    unfolding persist
    persist-Stores c s = elim (Result-cases (codec.encode s.sessions)) [
      | inr (e, p) ↦ rw (p, persist) (refused s s _ refl)
      | inl (text, p) ↦
          rw (p, persist)
            (elim (Option-cases c.directory) [
              | inr (e, d) ↦ rw d (refused s s _ refl)
              | inl d ↦ rw d (elim (Option-cases c.write) [
                | inr (e, w) ↦ rw w (refused s _ _ refl)
                | inl w ↦ rw w (elim (Option-cases c.rename) [
                  | inr (e, r) ↦ rw r (refused s _ _ refl)
                  | inl r ↦ rw r (record {
                    stored = λ _. round s.sessions text p;
                    kept = λ n. absurd (n refl);
                  })
                ])
              ])
            ])
    ]

    change-Stores : (f : Sessions → Sessions) (s : FileStore T) → Stores s (change codec f s)
    unfolding change
    change-Stores f s = elim (Option-cases (conditions s.to_come).canceled) [
      | inr (e, gone) ↦ rw (gone, change) (refused s _ e refl)
      | inl live ↦
          rw (live, change)
            (let h =
                persist-Stores (conditions s.to_come)
                  (record s { sessions = f s.sessions; to_come = File.later s.to_come }) in
              record { stored = h.stored; kept = h.kept })
    ]

    step-Stores : (s : FileStore T) (c : Change) → Stores s (step s c)
    unfolding step File.append File.replace File.delete
    step-Stores s (append id ms) = elim (Option-cases (conditions s.to_come).canceled) [
      | inr (e, gone) ↦ rw (gone, File.append) (refused s _ e refl)
      | inl live ↦
          rw (live, File.append)
            (elim (Bool-cases (is_empty id)) [
              | inl empty ↦ rw empty (refused s _ _ refl)
              | inr named ↦ rw named (change-Stores (λ m. put id (session m id ++ ms) m) s)
            ])
    ]
    step-Stores s (replace id ms) = change-Stores (put id ms) s
    step-Stores s (delete id) = change-Stores (remove id) s

    run-Holds :
        (saved : Sessions) (s : FileStore T) (cs : List Change)
        → Holds s.file saved
        → Holds (run saved s cs).1.file (run saved s cs).0
    unfolding run
    run-Holds saved s [] h = h
    run-Holds saved s (c ∷ cs) h =
        run-Holds (if is_some (step s c).0 then saved else settled (step s c).1.sessions)
          (step s c).1 cs (next-Holds saved s (step s c) (step-Stores s c) h)

    -- Whatever operations run on a store, and whichever of their calls fail or are canceled, opening
    -- the file again gives what a text of JSON keeps (`settled`) of the sessions of the last operation
    -- that reported no error, and those that the file held at the start, if none did.
    pub reopen-run :
        (path : Str) (saved : Sessions) (s : FileStore T) (cs : List Change)
        (to_come : List (Conditions T))
        → is_empty path ≡ false
        → Holds s.file saved
        → (t : FileStore T) × (open_file_store codec path none (run saved s cs).1.file to_come
            ≡ ok (opened t))
          × (t.sessions ≡ (run saved s cs).0)
    reopen-run path saved s cs to_come named h =
        reopen-Holds path _ _ to_come named (run-Holds saved s cs h)
