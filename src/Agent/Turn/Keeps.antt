-- ===== src/Agent/Turn/Keeps.antt =====
-- The invariant rules of a turn: what each step keeps, the whole turn keeps.
use cortex_go.Errors.{Result-cases, Result, ok, err}
use cortex_go.Agent.Turn.{
  fit_tokens, replace_history, fit_messages, store_history, prepare, OnDelta, stream_delta, receive,
  call_model, ask, finish, after_reply, loop,
}
use cortex_go.Prelude.{
  ℕ, zero, suc, inl, inr, Bool, true, false, Option, List, [], ◌∷◌, leb, if◌then◌else◌, Bool-cases,
  Option-cases, Str, is_empty,
}
use cortex_go.Provider.{Message, ToolCall, Usage, ChatResult}
use cortex_go.Agent.Config.{Agent, Json}
use cortex_go.Agent.State.{State}
use cortex_go.Agent.Calls.{validate_tool_calls, add_usage}
use cortex_go.Agent.Tools.{run_call, run_calls}

module _ {M : Type 0} (a : Agent M) (json : Json) (run_id session : Str)
    (P : State M → Type 0) where
  pub run_calls-keeps :
      ((c : ToolCall) (w : State M) → P w → P (run_call a json run_id session c w).1)
      → (cs : List ToolCall) (w : State M) → P w
      → P (run_calls a json run_id session cs w).1
  unfolding run_calls
  run_calls-keeps one [] w h = h
  run_calls-keeps one (c ∷ cs) w h =
      run_calls-keeps one cs (run_call a json run_id session c w).1 (one c w h)

  receive-keeps :
      (f : Option OnDelta)
      → ((d : Str) (w : State M) → P w → P (stream_delta a json run_id session f d w).1)
      → (ds : List Str) (r : Result ChatResult) (w : State M) → P w
      → P (receive a json run_id session f ds r w).1
  unfolding receive
  receive-keeps f one [] r w h = h
  receive-keeps f one (d ∷ ds) r w h =
      elim (Option-cases (stream_delta a json run_id session f d w).0) [
        | inl go ↦ rw (go, receive) (receive-keeps f one ds r _ (one d w h))
        | inr (e, stop) ↦ rw (stop, receive) (one d w h)
      ]

  pub call_model-keeps :
      (f : Option OnDelta)
      → ((d : Str) (w : State M) → P w → P (stream_delta a json run_id session f d w).1)
      → (stream : Bool) (ms : List Message) (w : State M) → P w
      → P (call_model a json run_id session stream f ms w).1
  unfolding call_model
  call_model-keeps f one false ms w h = h
  call_model-keeps f one true ms w h = elim (Option-cases a.model.chat_stream_with_options) [
    | inr (g, e) ↦ rw (e, call_model) (receive-keeps f one _ _ w h)
    | inl n ↦ elim (Option-cases a.model.chat_stream) [
      | inr (g, e) ↦ rw (n, call_model) (rw e (receive-keeps f one _ _ w h))
      | inl n' ↦ rw (n, call_model) (rw n' h)
    ]
  ]

  -- The rule of the loop: `P` is kept by a call of the model, by the tool calls of a round and by
  -- the end of the turn.
  module _
      (asked : (stream : Bool) (f : Option OnDelta) (round : ℕ) (ms : List Message) (w : State M)
        → P w
        → P (ask a json run_id session stream f round ms w).1)
      (called : (c : ToolCall) (w : State M) → P w → P (run_call a json run_id session c w).1)
      (finished : (stream : Bool) (start : ℕ) (ms : List Message) (u : Usage) (r : ChatResult)
          (w : State M)
        → P w
        → P (finish a json run_id session stream start ms u r w).1) where
    after_reply-keeps :
        (next : List Message → Usage → State M → Result ChatResult × State M)
        → ((ms : List Message) (u : Usage) (w : State M) → P w → P (next ms u w).1)
        → (stream : Bool) (start round : ℕ) (ms : List Message) (u : Usage) (r : Result ChatResult)
          (w : State M)
        → P w
        → P (after_reply a json run_id session next stream start round ms u r w).1
    unfolding after_reply
    after_reply-keeps next step stream start round ms u (err e) w h = h
    after_reply-keeps next step stream start round ms u (ok r) w h =
        elim (Bool-cases (is_empty r.tool_calls)) [
          | inl done ↦ rw done (finished stream start ms (add_usage u r.usage) r w h)
          | inr more ↦ elim (Bool-cases (leb a.max_tool_rounds round)) [
            | inl over ↦ rw more (rw over h)
            | inr under ↦ elim (Option-cases (validate_tool_calls json r.tool_calls)) [
              | inr (e, bad) ↦ rw more (rw under (rw bad h))
              | inl good ↦
                  rw more
                    (rw under (rw good (step _ _ _ (run_calls-keeps called r.tool_calls w h))))
            ]
          ]
        ]

    pub loop-keeps :
        (stream : Bool) (f : Option OnDelta) (start fuel round : ℕ) (ms : List Message) (u : Usage)
        (w : State M)
        → P w
        → P (loop a json run_id session stream f start fuel round ms u w).1
    unfolding loop
    loop-keeps stream f start zero round ms u w h = h
    loop-keeps stream f start (suc fuel) round ms u w h =
        after_reply-keeps (loop a json run_id session stream f start fuel (suc round))
          (loop-keeps stream f start fuel (suc round)) stream start round ms u
          (ask a json run_id session stream f round ms w).0 _ (asked stream f round ms w h)

  -- The rule of `prepare`: it only puts new values of the memory into the state.
  module _ (stored : (m : M) (w : State M) → P w → P (record w { store = m })) where
    store_history-keeps :
        (ms : List Message) (w : State M) → P w → P (store_history a json run_id session ms w).1
    unfolding store_history
    store_history-keeps ms w h = elim (Option-cases a.memory.replace) [
      | inl n ↦ rw (n, store_history) h
      | inr (f, e) ↦ rw (e, store_history) (stored (f w.store session ms).1 w h)
    ]

    replace_history-keeps :
        (r : Result (List Message)) (w : State M)
        → P w
        → P (replace_history a json run_id session r w).1
    unfolding replace_history
    replace_history-keeps (err e) w h = h
    replace_history-keeps (ok ms) w h =
        elim (Option-cases (store_history a json run_id session ms w).0) [
          | inl n ↦ rw (n, replace_history) (store_history-keeps ms w h)
          | inr (e, failed) ↦ rw (failed, replace_history) (store_history-keeps ms w h)
        ]

    if-keeps :
        (b : Bool) (p q : Result (List Message) × State M)
        → P p.1
        → P q.1
        → P (if b then p else q).1
    if-keeps true p q h k = h
    if-keeps false p q h k = k

    fit_tokens-keeps :
        (input : Str) (ms : List Message) (w : State M)
        → P w
        → P (fit_tokens a json run_id session input ms w).1
    unfolding fit_tokens
    fit_tokens-keeps input ms w h = if-keeps _ _ _ (replace_history-keeps _ w h) h

    fit_messages-keeps :
        (ms : List Message) (w : State M) → P w → P (fit_messages a json run_id session ms w).1
    unfolding fit_messages
    fit_messages-keeps ms w h = if-keeps _ _ _ (replace_history-keeps _ w h) h

    pub prepare-keeps :
        (input : Str) (w : State M) → P w → P (prepare a json run_id session input w).1
    unfolding prepare
    prepare-keeps input w h =
        let q = a.memory.list w.store session in
        let w' : State M = record w { store = q.1 } in
        let h' = stored q.1 w h in
        elim (Result-cases q.0) [
          | inr (e, failed) ↦ rw (failed, prepare) h'
          | inl (ms, found) ↦ elim (Result-cases (fit_tokens a json run_id session input ms w').0) [
            | inr (e, failed) ↦ rw (found, prepare) (rw failed (fit_tokens-keeps input ms w' h'))
            | inl (ns, fitted) ↦
                rw (found, prepare)
                  (rw fitted (fit_messages-keeps ns _ (fit_tokens-keeps input ms w' h')))
          ]
        ]
