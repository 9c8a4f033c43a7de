-- ===== src/Agent/Turn/Persist.antt =====
-- What a turn leaves in a memory that keeps its contract.
use cortex_go.Agent.Turn.Traces.{store-emit, store-ask, store-run_call}
use cortex_go.Agent.Turn.Fuel.{replies-emit}
use cortex_go.Agent.Turn.Rounds.{none_yet, loop-Saved, Rounds, Saved}
use cortex_go.Agent.Turn.Keeps.{prepare-keeps, loop-keeps}
use cortex_go.Provider.{user, plain_message, Message, Usage, ChatResult}
use cortex_go.Prelude.{
  ℕ, suc, ◌≤◌, ◌≡◌, refl, sym, ap, subst, ◌∙◌, ◌≢◌, inl, inr, Bool, true, false, Option, none, List,
  [], ◌∷◌, ◌++◌, append-nil, append_assoc, arith, if◌then◌else◌, Option-cases, length, drop,
  drop-length-append, Str, is_empty,
}
use cortex_go.Errors.{Result, ok, err, Result-cases}
use cortex_go.Memory.Sessions.Laws.{Laws, Replaces}
use cortex_go.Agent.Config.{Agent, Json}
use cortex_go.Agent.State.{State, run_started, no_usage}
use cortex_go.Agent.Tools.{emit}
use cortex_go.Agent.Turn.{
  OnDelta, assistant_message, finish, prepare, run, store_history, replace_history, fit_tokens,
  fit_messages,
}

module _ {M : Type 0} (a : Agent M) (json : Json) (run_id session : Str)
    (view : M → Str → List Message) (laws : Laws a.memory view) where
  -- The state in which `prepare` starts.
  abbrev pub begun : State M → State M
  begun w = record (emit a json run_id session run_started w) { streamed = [] }

  store-begun : (w : State M) → (begun w).store ≡ w.store
  store-begun w = store-emit a json run_id session run_started w

  module _ (j : Str) (other : session ≢ j) where
    abbrev Kept : State M → Result (List Message) × State M → Type 0
    Kept w q = view q.1.store j ≡ view w.store j

    if-Kept :
        (b : Bool) (w : State M) (p q : Result (List Message) × State M)
        → Kept w p
        → Kept w q
        → Kept w (if b then p else q)
    if-Kept true w p q h k = h
    if-Kept false w p q h k = k

    store_history-others :
        (ms : List Message) (w : State M)
        → view (store_history a json run_id session ms w).1.store j ≡ view w.store j
    unfolding store_history
    store_history-others ms w = elim (Option-cases a.memory.replace) [
      | inl n ↦ rw (n, store_history)
      | inr (f, e) ↦
          rw (e, store_history)
            ((subst (Replaces view) e laws.replace_law w.store session ms).others j other)
    ]

    replace_history-others :
        (r : Result (List Message)) (w : State M)
        → Kept w (replace_history a json run_id session r w)
    unfolding replace_history
    replace_history-others (err e) w = refl
    replace_history-others (ok ms) w = ground (arith, store_history-others ms w)

    fit_tokens-others :
        (input : Str) (ms : List Message) (w : State M)
        → Kept w (fit_tokens a json run_id session input ms w)
    unfolding fit_tokens
    fit_tokens-others input ms w = if-Kept _ w _ _ (replace_history-others _ w) refl

    fit_messages-others :
        (ms : List Message) (w : State M) → Kept w (fit_messages a json run_id session ms w)
    unfolding fit_messages
    fit_messages-others ms w = if-Kept _ w _ _ (replace_history-others _ w) refl

    prepare-others : (input : Str) (w : State M) → Kept w (prepare a json run_id session input w)
    unfolding prepare
    prepare-others input w =
        let q = a.memory.list w.store session in
        let w' : State M = record w { store = q.1 } in
        let listed : view q.1 j ≡ view w.store j = laws.list_keeps w.store session j in
        elim (Result-cases q.0) [
          | inr (e, failed) ↦ rw (failed, prepare) listed
          | inl (ms, found) ↦
              let fit = fit_tokens-others input ms w' in
              elim (Result-cases (fit_tokens a json run_id session input ms w').0) [
                | inr (e, failed) ↦ rw (found, prepare) (rw failed (fit ∙ listed))
                | inl (ns, fitted) ↦
                    rw (found, prepare) (rw fitted (fit_messages-others ns _ ∙ fit ∙ listed))
              ]
        ]

    finish-others :
        (stream : Bool) (start : ℕ) (ms : List Message) (u : Usage) (r : ChatResult) (w : State M)
        → view (finish a json run_id session stream start ms u r w).1.store j ≡ view w.store j
    unfolding finish
    finish-others stream start ms u r w =
        let said = drop start (ms ++ assistant_message r.content [] ∷ []) in
        let q = a.memory.append w.store session said in
        let others = (laws.append_law w.store session said).others j other in
        elim (Option-cases q.0) [
          | inr (e, failed) ↦ rw (failed, finish) others
          | inl done ↦
              rw (done, finish) (ap (λ m. view m j) (store-emit a json run_id session _ _) ∙ others)
        ]

    -- A turn, whether it ends well or not, leaves every other session of a memory that keeps its
    -- contract as it was.
    pub run-others :
        (input : Str) (stream : Bool) (f : Option OnDelta) (w : State M)
        → view (run a json run_id session input stream f w).1.store j ≡ view w.store j
    unfolding run
    run-others input stream f w =
        let q = prepare a json run_id session input (begun w) in
        let kept = prepare-others input (begun w) in
        let start = ap (λ m. view m j) (store-begun w) in
        elim (Result-cases q.0) [
          | inr (e, failed) ↦ rw (failed, run) (kept ∙ start)
          | inl (history, prepared) ↦
              rw (prepared, run)
                (loop-keeps a json run_id session (λ t. view t.store j ≡ view w.store j)
                  (λ s g n ms t h.
                    ap (λ m. view m j) (store-ask a json run_id session s g n ms t) ∙ h)
                  (λ c t h. ap (λ m. view m j) (store-run_call a json run_id session c t) ∙ h)
                  (λ s n ms u r t h. finish-others s n ms u r t ∙ h) stream f (length history)
                  (suc a.max_tool_rounds) 0 _ no_usage q.1 (kept ∙ start))
        ]

  -- The messages that a turn adds to its session: the question, the rounds and the answer.
  abbrev pub turn_messages : Str → List Message → Str → List Message
  turn_messages input body content =
      plain_message user input ∷ (body ++ assistant_message content [] ∷ [])

  run-eq-ok :
      (input : Str) (stream : Bool) (f : Option OnDelta) (w : State M) (r : ChatResult)
      (w' : State M)
      → run a json run_id session input stream f w ≡ (ok r, w')
      → (history : List Message) × ((prepare a json run_id session input (begun w)).0 ≡ ok history)
        × Saved a json run_id session stream
            (length history)
            (history ++ plain_message user input ∷ [])
            w.replies
            (prepare a json run_id session input (begun w)).1.store
            r
            w'
  unfolding run
  run-eq-ok input stream f w r w' h =
      let q = prepare a json run_id session input (begun w) in
      elim (Result-cases q.0) [
        | inr (e, failed) ↦ (let p : err e ≡ ok r = ap (λ x. x.0) (rw (failed, run) at h) in cc p)
        | inl (history, prepared) ↦ (
          history,
          prepared,
          loop-Saved a json run_id session stream f (length history)
              (history ++ plain_message user input ∷ []) (suc a.max_tool_rounds) 0 [] w.replies []
              no_usage q.1 r w' none_yet (omega arith)
              (prepare-keeps a json run_id session (λ t. t.replies ≡ w.replies) (λ m t k. k) input
                  (begun w) (replies-emit a json run_id session run_started w)
                ∙ sym (append-nil w.replies))
              (rw (← append-nil (history ++ plain_message user input ∷ [])) at
                (rw (prepared, run) at h)),
        )
      ]

  -- A turn that returns a result has appended to its session, behind the history that it prepared,
  -- the user's message, at most `max_tool_rounds` rounds and the answer, and nothing else. A round is
  -- one reply of the model with valid tool calls, and one tool message for each of them with its ID,
  -- in order; the answer is the content of the reply behind them, the model's last, which has no tool
  -- calls. The result has this content, or what was streamed where the turn streams.
  pub run-appends :
      (input : Str) (stream : Bool) (f : Option OnDelta) (w : State M) (r : ChatResult)
      (w' : State M)
      → run a json run_id session input stream f w ≡ (ok r, w')
      → (n : ℕ) × (body : List Message) × (replies : List (Result ChatResult)) × (last : ChatResult)
        × Rounds json n body replies
        × (n ≤ a.max_tool_rounds)
        × (is_empty last.tool_calls ≡ true)
        × (w'.replies ≡ w.replies ++ (replies ++ ok last ∷ []))
        × (r.content ≡ (if stream then w'.streamed else last.content))
        × (view w'.store session
            ≡ view (prepare a json run_id session input (begun w)).1.store session
              ++ turn_messages input body last.content)
  run-appends input stream f w r w' h =
      let (history, prepared, s) = run-eq-ok input stream f w r w' h in
      let q = prepare a json run_id session input (begun w) in
      let turn = turn_messages input s.body s.last.content in
      let said : drop (length history) (
            (history ++ plain_message user input ∷ [])
            ++ (s.body ++ assistant_message s.last.content [] ∷ []))
          ≡ turn =
        rw append_assoc (drop-length-append history turn) in
      let stored : a.memory.append q.1.store session turn ≡ (none, w'.store) =
        rw (← said) s.appended in
      (
        s.rounds,
        s.body,
        s.replies,
        s.last,
        s.is_rounds,
        s.bounded,
        s.last_has_no_calls,
        s.told,
        s.returned,
        ap (λ p. view p.1 session) (sym stored)
            ∙ (laws.append_law q.1.store session turn).written (ap (λ p. p.0) stored),
      )
