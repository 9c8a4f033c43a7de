-- ===== src/Command/Loop.antt =====
-- cmd/cortexgo/main.go: the loop over the lines of the terminal. Each call of the agent has a run ID.
use cortex_go.Errors.{Result-cases, Error, Result, ok, err}
use cortex_go.Agent.Turn.{chat_with_result, chat_stream_with_result, OnDelta}
use cortex_go.Provider.{ChatResult}
use cortex_go.Agent.State.{State}
use cortex_go.Agent.Config.{Json, Agent}
use cortex_go.Prelude.{
  suc, ◌≡◌, refl, ap, inl, inr, Bool, ◌||◌, Option, none, some, List, [], ◌∷◌, if◌then◌else◌,
  Bool-cases, length, Str, bytes, str_eq, trim_space, is_empty,
}

abbrev pub is_exit : Str → Bool
is_exit input = str_eq input (bytes "/exit") || str_eq input (bytes "/quit")

-- fmt.Print of a delta never refuses it.
abbrev pub print_delta : OnDelta
print_delta seen text = none

module _ {M : Type 0} (a : Agent M) (json : Json) (session : Str) (stream : Bool) where
  unfoldable pub chat_once : Str → Str → State M → Result ChatResult × State M
  chat_once run_id input w =
      if stream
      then chat_stream_with_result a json run_id session input (some print_delta) w
      else chat_with_result a json run_id session input w

  -- The lines with the IDs of the runs that they may start: what ends the loop (an error is fatal), the
  -- answers so far, and the agent's state.
  unfoldable pub converse : List (Str × Str) → State M → Option Error × (List ChatResult × State M)
  converse [] w = (none, ([], w))
  converse ((run_id, line) ∷ lines) w =
      let input = trim_space line in
      let skipped = converse lines w in
      let (r, w') = chat_once run_id input w in
      let rest = converse lines w' in
      if is_empty input then skipped else if is_exit input then (none, ([], w)) else elim r [
        | err e ↦ (some e, ([], w'))
        | ok result ↦ (rest.0, (result ∷ rest.1.0, rest.1.1))
      ]

  -- The inputs that are put to the agent, up to the exit.
  unfoldable pub inputs_of : List (Str × Str) → List Str
  inputs_of [] = []
  inputs_of ((run_id, line) ∷ lines) =
      let rest = inputs_of lines in
      if is_empty (trim_space line)
      then rest
      else if is_exit (trim_space line)
      then []
      else trim_space line ∷ rest

  -- A conversation that no error ends has one answer for each input that is put to the agent.
  pub length-converse :
      (lines : List (Str × Str)) (w : State M)
      → (converse lines w).0 ≡ none
      → length (converse lines w).1.0 ≡ length (inputs_of lines)
  unfolding converse inputs_of
  length-converse [] w h = refl
  length-converse ((run_id, line) ∷ lines) w h =
      let input = trim_space line in
      let q = chat_once run_id input w in
      elim (Bool-cases (is_empty input)) [
        | inl e ↦ rw e (length-converse lines w (rw e at h))
        | inr e ↦ elim (Bool-cases (is_exit input)) [
          | inl x ↦ rw e (rw x refl)
          | inr x ↦ elim (Result-cases q.0) [
            | inr (f, bad) ↦ let p : some f ≡ none = rw bad at (rw x at (rw e at h)) in cc p
            | inl (r, good) ↦ rw e (
                rw x
                  (rw good (ap suc (length-converse lines q.1 (rw good at (rw x at (rw e at h)))))))
          ]
        ]
      ]
