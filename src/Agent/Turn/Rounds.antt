-- ===== src/Agent/Turn/Rounds.antt =====
-- The messages of a turn: each round is an assistant's message with valid tool calls, followed by one
-- answer for each call, in their order.
use cortex_go.Agent.Turn.Traces.{store-emit, store-ask, store-run_calls, streamed-emit}
use cortex_go.Agent.Turn.Fuel.{replies-run_calls, replies-emit, replies-ask}
use cortex_go.Agent.State.{run_completed, State}
use cortex_go.Agent.Turn.{OnDelta, assistant_message, ask, finish, after_reply, loop}
use cortex_go.Prelude.{
  ℕ, zero, suc, ◌≤◌, ◌<◌, ◌≡◌, refl, sym, ap, ◌∙◌, ◌⊎◌, inl, inr, Bool, true, false, Option, none,
  List, [], ◌∷◌, ◌++◌, append_assoc, arith, leb, if◌then◌else◌, Bool-cases, Option-cases, drop, Str,
  is_empty,
}
use cortex_go.Errors.{Error, Result, ok, err, Result-cases}
use cortex_go.Provider.{Message, ToolCall, Usage, ChatResult, tool}
use cortex_go.Agent.Config.{Agent, Json}
use cortex_go.Agent.Calls.{validate_tool_calls, add_usage}
use cortex_go.Agent.Tools.{run_call, run_calls}

-- One tool message for each call, with the call's ID.
abbrev pub Answers : List ToolCall → List Message → Type 0
Answers [] [] = Unit
Answers (c ∷ cs) (m ∷ ms) = (m.role ≡ tool) × (m.tool_call_id ≡ c.id) × Answers cs ms
Answers _ _ = ⊥

-- The messages of `n` rounds, and the replies of the model in them.
pub data Rounds (json : Json) : ℕ → List Message → List (Result ChatResult) → Type 0 where
  none_yet : Rounds json zero [] []
  one_more :
      {n : ℕ} {body whole : List Message} {replies heard : List (Result ChatResult)}
      (res : ChatResult) (answers : List Message)
      → Rounds json n body replies
      → is_empty res.tool_calls ≡ false
      → validate_tool_calls json res.tool_calls ≡ none
      → Answers res.tool_calls answers
      → whole ≡ body ++ (assistant_message res.content res.tool_calls ∷ answers)
      → heard ≡ replies ++ ok res ∷ []
      → Rounds json (suc n) whole heard

module _ {M : Type 0} (a : Agent M) (json : Json) (run_id session : Str) where
  run_call-answer :
      (c : ToolCall) (w : State M)
      → ((run_call a json run_id session c w).0.role ≡ tool)
        × ((run_call a json run_id session c w).0.tool_call_id ≡ c.id)
  unfolding run_call
  run_call-answer c w = (refl, refl)

  pub run_calls-Answers :
      (cs : List ToolCall) (w : State M) → Answers cs (run_calls a json run_id session cs w).0
  unfolding run_calls
  run_calls-Answers [] w = tt
  run_calls-Answers (c ∷ cs) w =
      let (m, i) = run_call-answer c w in
      (m, i, run_calls-Answers cs (run_call a json run_id session c w).1)

  -- What a turn that ended well has appended and heard, where `heard` are the replies before it.
  pub record Saved (stream : Bool) (start : ℕ) (before : List Message)
      (heard : List (Result ChatResult)) (m : M) (r : ChatResult) (w' : State M) : Type 0 where
    pub rounds : ℕ
    pub body : List Message
    pub replies : List (Result ChatResult)
    pub last : ChatResult
    pub is_rounds : Rounds json rounds body replies
    pub bounded : rounds ≤ a.max_tool_rounds
    pub last_has_no_calls : is_empty last.tool_calls ≡ true
    pub told : w'.replies ≡ heard ++ (replies ++ ok last ∷ [])
    pub returned : r.content ≡ (if stream then w'.streamed else last.content)
    pub appended :
        a.memory.append m session
          (drop start (before ++ (body ++ assistant_message last.content [] ∷ [])))
        ≡ (none, w'.store)

  finish-eq-ok :
      (stream : Bool) (start : ℕ) (said : List Message) (u : Usage) (res : ChatResult) (w : State M)
      (r : ChatResult) (w' : State M)
      → finish a json run_id session stream start said u res w ≡ (ok r, w')
      → a.memory.append w.store session (drop start (said ++ assistant_message res.content [] ∷ []))
        ≡ (none, w'.store)
  unfolding finish
  finish-eq-ok stream start said u res w r w' h =
      let q =
        a.memory.append w.store session
          (drop start (said ++ assistant_message res.content [] ∷ [])) in
      elim (Option-cases q.0) [
        | inr (e, failed) ↦ cc (rw (failed, finish) at h)
        | inl done ↦
            let h' = rw (done, finish) at h in
            let stored : q.1 ≡ w'.store =
              sym (store-emit a json run_id session _ _) ∙ ap (λ p. p.1.store) h' in
            λ i. (done i, stored i)
      ]

  finish-tells :
      (stream : Bool) (start : ℕ) (said : List Message) (u : Usage) (res : ChatResult) (w : State M)
      (r : ChatResult) (w' : State M)
      → finish a json run_id session stream start said u res w ≡ (ok r, w')
      → (w'.replies ≡ w.replies) × (r.content ≡ (if stream then w'.streamed else res.content))
  unfolding finish
  finish-tells stream start said u res w r w' h =
      let q =
        a.memory.append w.store session
          (drop start (said ++ assistant_message res.content [] ∷ [])) in
      elim (Option-cases q.0) [
        | inr (e, failed) ↦ cc (rw (failed, finish) at h)
        | inl done ↦
            let h' = rw (done, finish) at h in
            let ends : State M = record w { store = q.1 } in
            let streamed : w.streamed ≡ w'.streamed =
              sym (streamed-emit a json run_id session run_completed ends)
              ∙ ap (λ p. p.1.streamed) h' in
            let same : ok
                  (record res { content = if stream then w.streamed else res.content; usage = u })
                ≡ ok r =
              ap (λ p. p.0) h' in
            let whole : record res {
              content = if stream then w.streamed else res.content;
              usage = u;
            }
                ≡ r =
              cc same in
            (
              sym (ap (λ p. p.1.replies) h')
                  ∙ replies-emit a json run_id session run_completed ends,
              sym (ap (λ x. x.content) whole)
                  ∙ ap (λ s. if stream then s else res.content) streamed,
            )
      ]

  -- What is known of a round that goes on, and of one that is the last.
  abbrev pub GoesOn :
      (List Message → Usage → State M → Result ChatResult × State M)
      → ℕ
      → List Message
      → Usage
      → ChatResult
      → State M
      → Result ChatResult × State M
      → Type 0
  GoesOn next round said u res w q =
      (is_empty res.tool_calls ≡ false)
      × (round < a.max_tool_rounds)
      × (validate_tool_calls json res.tool_calls ≡ none)
      × (next
            (said
              ++ (assistant_message res.content res.tool_calls
                  ∷ (run_calls a json run_id session res.tool_calls w).0))
            (add_usage u res.usage) (run_calls a json run_id session res.tool_calls w).1
          ≡ q)

  pub after_reply-eq-ok :
      (next : List Message → Usage → State M → Result ChatResult × State M) (stream : Bool)
      (start round : ℕ) (said : List Message) (u : Usage) (res : ChatResult) (w : State M)
      (r : ChatResult) (w' : State M)
      → after_reply a json run_id session next stream start round said u (ok res) w ≡ (ok r, w')
      → ((is_empty res.tool_calls ≡ true)
          × (finish a json run_id session stream start said (add_usage u res.usage) res w
              ≡ (ok r, w')))
        ⊎ GoesOn next round said u res w (ok r, w')
  unfolding after_reply
  after_reply-eq-ok next stream start round said u res w r w' h =
      elim (Bool-cases (is_empty res.tool_calls)) [
        | inl last ↦ inl (last, rw last at h)
        | inr more ↦ elim (Bool-cases (leb a.max_tool_rounds round)) [
          | inl over ↦ cc (rw over at (rw more at h))
          | inr under ↦ elim (Option-cases (validate_tool_calls json res.tool_calls)) [
            | inr (e, bad) ↦ cc (rw bad at (rw under at (rw more at h)))
            | inl good ↦ inr (more, ground arith, good, rw good at (rw under at (rw more at h)))
          ]
        ]
      ]

  pub after_reply-ne-ok :
      (next : List Message → Usage → State M → Result ChatResult × State M) (stream : Bool)
      (start round : ℕ) (said : List Message) (u : Usage) (e : Error) (w : State M) (r : ChatResult)
      (w' : State M)
      → ¬ (after_reply a json run_id session next stream start round said u (err e) w ≡ (ok r, w'))
  unfolding after_reply
  after_reply-ne-ok next stream start round said u e w r w' h =
      let p : err e ≡ ok r = ap (λ q. q.0) h in cc p

  -- A turn that ends well appends, behind what the transcript held, the rounds and the answer.
  pub loop-Saved :
      (stream : Bool) (f : Option OnDelta) (start : ℕ) (before : List Message) (fuel round : ℕ)
      (body : List Message) (heard replies : List (Result ChatResult)) (u : Usage) (w : State M)
      (r : ChatResult) (w' : State M)
      → Rounds json round body replies
      → round ≤ a.max_tool_rounds
      → w.replies ≡ heard ++ replies
      → loop a json run_id session stream f start fuel round (before ++ body) u w ≡ (ok r, w')
      → Saved stream start before heard w.store r w'
  unfolding loop
  loop-Saved stream f start before zero round body heard replies u w r w' rs le hears h = cc
  loop-Saved stream f start before (suc fuel) round body heard replies u w r w' rs le hears h =
      let q = ask a json run_id session stream f round (before ++ body) w in
      let kept : q.1.store ≡ w.store =
        store-ask a json run_id session stream f round (before ++ body) w in
      elim (Result-cases q.0) [
        | inr (e, failed) ↦
            absurd (
              after_reply-ne-ok _ stream start round (before ++ body) u e q.1 r w' (rw failed at h))
        | inl (res, replied) ↦
            let told : q.1.replies ≡ heard ++ (replies ++ ok res ∷ []) =
              replies-ask a json run_id session stream f round (before ++ body) w
              ∙ ap (λ l. l ++ q.0 ∷ []) hears
              ∙ ap (λ x. (heard ++ replies) ++ x ∷ []) replied
              ∙ append_assoc heard replies (ok res ∷ []) in
            elim (after_reply-eq-ok _ stream start round (before ++ body) u res q.1 r w'
              (rw replied at h)) [
                | inl (no_calls, last) ↦
                    let (same, returned) =
                      finish-tells stream start (before ++ body) (add_usage u res.usage) res q.1 r
                        w' last in
                    record {
                      rounds = round;
                      body = body;
                      replies = replies;
                      last = res;
                      is_rounds = rs;
                      bounded = le;
                      last_has_no_calls = no_calls;
                      told = same ∙ told;
                      returned = returned;
                      appended =
                          rw (← kept, ← append_assoc)
                            (finish-eq-ok stream start (before ++ body) (add_usage u res.usage) res
                              q.1 r w' last);
                    }
                | inr (more, under, good, rest) ↦
                    let answers = run_calls a json run_id session res.tool_calls q.1 in
                    let message = assistant_message res.content res.tool_calls in
                    rw (← kept, ← store-run_calls a json run_id session res.tool_calls q.1)
                      (loop-Saved stream f start before fuel (suc round)
                        (body ++ (message ∷ answers.0)) heard (replies ++ ok res ∷ [])
                        (add_usage u res.usage) answers.1 r w'
                        (one_more res answers.0 rs more good (run_calls-Answers res.tool_calls q.1)
                          refl refl)
                        under (replies-run_calls a json run_id session res.tool_calls q.1 ∙ told)
                        (rw append_assoc at rest))
              ]
      ]
