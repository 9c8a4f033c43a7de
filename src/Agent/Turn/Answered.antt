-- ===== src/Agent/Turn/Answered.antt =====
-- What the tool calls of a round are answered with, under an authorizer.
use cortex_go.Agent.State.{tool_started, State, EventKind}
use cortex_go.Agent.Config.{Agent, Json, ToolAuthorizer, ToolBox, Outcome, answered, expired}
use cortex_go.Agent.Tools.{
  run_calls, emit, authorize, invoke_tool, attempt, audit, run_call, output_of, tool_message,
  result_of_outcome,
}
use cortex_go.Errors.{Error, ok, err, not_authorized, not_registered}
use cortex_go.Provider.{Message, ToolCall}
use cortex_go.Prelude.{
  ℕ, suc, ◌+◌, ◌≡◌, refl, sym, ap, subst, ◌∙◌, inl, inr, Option, none, some, List, [], ◌∷◌, ◌++◌,
  append-nil, append_assoc, arith, Option-cases, length, length-append, Str,
}

-- How the tool calls of a round are answered, where a number of calls reached the registry before: a
-- denied call is answered with its error and reaches no handler, and an allowed one with what the registry
-- returns. The last argument are the calls that reach it.
pub data Answered {M : Type 0} (a : Agent M) (json : Json) (f : ToolAuthorizer)
    : ℕ → List ToolCall → List Message → List (Str × Str) → Type 0 where
  nobody : {n : ℕ} → Answered a json f n [] [] []
  refused_call :
      {n : ℕ} {c : ToolCall} {cs : List ToolCall} {m : Message} {ms : List Message}
      {xs : List (Str × Str)} {e : Error}
      → f n c.function.name ≡ some e
      → m ≡ tool_message c.id (json.error_object (not_authorized c.function.name e))
      → Answered a json f n cs ms xs
      → Answered a json f n (c ∷ cs) (m ∷ ms) xs
  no_registry :
      {n : ℕ} {c : ToolCall} {cs : List ToolCall} {m : Message} {ms : List Message}
      {xs : List (Str × Str)}
      → f n c.function.name ≡ none
      → a.tools ≡ none
      → m ≡ tool_message c.id (json.error_object (not_registered c.function.name))
      → Answered a json f n cs ms xs
      → Answered a json f n (c ∷ cs) (m ∷ ms) xs
  handed :
      {n : ℕ} {c : ToolCall} {cs : List ToolCall} {m : Message} {ms : List Message}
      {xs : List (Str × Str)} {box : ToolBox}
      → f n c.function.name ≡ none
      → a.tools ≡ some box
      → m
        ≡ tool_message c.id (elim (box.invoke n c.function.name c.function.arguments) [
          | answered (ok output) ↦ output
          | answered (err e) ↦ json.error_object e
          | expired e ↦ json.error_object e
        ])
      → Answered a json f (suc n) cs ms xs
      → Answered a json f n (c ∷ cs) (m ∷ ms) ((c.function.name, c.function.arguments) ∷ xs)

-- What one call does: its answer, the calls that reach the registry, and their number.
pub data AnsweredOne {M : Type 0} (a : Agent M) (json : Json) (f : ToolAuthorizer) (n : ℕ)
    (c : ToolCall) (m : Message) : List (Str × Str) → Type 0 where
  turned_away :
      {e : Error}
      → f n c.function.name ≡ some e
      → m ≡ tool_message c.id (json.error_object (not_authorized c.function.name e))
      → AnsweredOne a json f n c m []
  unserved :
      f n c.function.name ≡ none
      → a.tools ≡ none
      → m ≡ tool_message c.id (json.error_object (not_registered c.function.name))
      → AnsweredOne a json f n c m []
  served :
      {box : ToolBox}
      → f n c.function.name ≡ none
      → a.tools ≡ some box
      → m
        ≡ tool_message c.id (elim (box.invoke n c.function.name c.function.arguments) [
          | answered (ok output) ↦ output
          | answered (err e) ↦ json.error_object e
          | expired e ↦ json.error_object e
        ])
      → AnsweredOne a json f n c m ((c.function.name, c.function.arguments) ∷ [])

module _ {M : Type 0} (a : Agent M) (json : Json) (run_id session : Str) where
  invocations-emit :
      (k : EventKind) (w : State M) → (emit a json run_id session k w).invocations ≡ w.invocations
  unfolding emit
  invocations-emit k w = ground arith

  invocations-audit :
      (c : ToolCall) (e : Option Error) (w : State M)
      → (audit a json run_id session c e w).invocations ≡ w.invocations
  unfolding audit
  invocations-audit c e w = ground arith

  output_of-outcome :
      (o : Outcome)
      → output_of a json run_id session (result_of_outcome o) ≡ elim o [
        | answered (ok output) ↦ output
        | answered (err e) ↦ json.error_object e
        | expired e ↦ json.error_object e
      ]
  unfolding output_of
  output_of-outcome (answered (ok output)) = refl
  output_of-outcome (answered (err e)) = refl
  output_of-outcome (expired e) = refl

  module _ (f : ToolAuthorizer) (guarded : a.authorizer ≡ some f) where
    authorize-eq :
        (name : Str) (w : State M)
        → authorize a json run_id session name w ≡ f (length w.invocations) name
    unfolding authorize
    authorize-eq name w = rw guarded

    attempt-AnsweredOne :
        (c : ToolCall) (w : State M)
        → (xs : List (Str × Str)) × ((attempt a json run_id session c w).1.invocations
            ≡ w.invocations ++ xs)
          × AnsweredOne a json f
              (length w.invocations)
              c
              (tool_message c.id
                (output_of a json run_id session (attempt a json run_id session c w).0))
              xs
    unfolding attempt output_of
    attempt-AnsweredOne c w =
        elim (Option-cases (authorize a json run_id session c.function.name w)) [
          | inr (e, banned) ↦ (
            [],
            rw (banned, attempt) (sym (append-nil w.invocations)),
            turned_away (sym (authorize-eq c.function.name w) ∙ banned) (rw (banned, attempt) refl),
          )
          | inl allowed ↦
              let free = sym (authorize-eq c.function.name w) ∙ allowed in
              elim (Option-cases a.tools) [
                | inl t ↦ (
                  [],
                  rw (allowed, attempt) (rw t (sym (append-nil w.invocations))),
                  unserved free t (rw (allowed, attempt) (rw t refl)),
                )
                | inr (box, t) ↦ (
                  (c.function.name, c.function.arguments) ∷ [],
                  rw (allowed, attempt) (rw t refl),
                  served free t (
                      rw (allowed, attempt)
                        (rw t (
                          ap (tool_message c.id) (
                            output_of-outcome (
                              box.invoke (length w.invocations) c.function.name
                                c.function.arguments))))),
                )
              ]
        ]

    run_call-AnsweredOne :
        (c : ToolCall) (w : State M)
        → (xs : List (Str × Str)) × ((run_call a json run_id session c w).1.invocations
            ≡ w.invocations ++ xs)
          × AnsweredOne a json f (length w.invocations) c (run_call a json run_id session c w).0 xs
    unfolding run_call invoke_tool
    run_call-AnsweredOne c w =
        let begun = emit a json run_id session (tool_started c.id) w in
        let same : begun.invocations ≡ w.invocations = invocations-emit (tool_started c.id) w in
        let (xs, reached, one) = attempt-AnsweredOne c begun in
        (
          xs,
          invocations-emit _ _ ∙ invocations-audit c _ _ ∙ reached ∙ ap (λ l. l ++ xs) same,
          subst (λ l. AnsweredOne a json f (length l) c (run_call a json run_id session c w).0 xs)
              same one,
        )

    Answered-cons :
        (n : ℕ) (c : ToolCall) (m : Message) (xs : List (Str × Str)) (cs : List ToolCall)
        (ms : List Message) (ys : List (Str × Str))
        → AnsweredOne a json f n c m xs
        → Answered a json f (n + length xs) cs ms ys
        → Answered a json f n (c ∷ cs) (m ∷ ms) (xs ++ ys)
    Answered-cons n c m _ cs ms ys (turned_away banned e) h =
        refused_call banned e (subst (λ k. Answered a json f k cs ms ys) (omega arith) h)
    Answered-cons n c m _ cs ms ys (unserved allowed t e) h =
        no_registry allowed t e (subst (λ k. Answered a json f k cs ms ys) (omega arith) h)
    Answered-cons n c m _ cs ms ys (served allowed t e) h =
        handed allowed t e (subst (λ k. Answered a json f k cs ms ys) (omega arith) h)

    -- A round: all its calls are answered so, whatever happened before.
    pub run_calls-Answered :
        (cs : List ToolCall) (w : State M)
        → (xs : List (Str × Str)) × ((run_calls a json run_id session cs w).1.invocations
            ≡ w.invocations ++ xs)
          × Answered a json f (length w.invocations) cs (run_calls a json run_id session cs w).0 xs
    unfolding run_calls
    run_calls-Answered [] w = ([], sym (append-nil w.invocations), nobody)
    run_calls-Answered (c ∷ cs) w =
        let (xs, reached, one) = run_call-AnsweredOne c w in
        let (ys, later, rest) = run_calls-Answered cs (run_call a json run_id session c w).1 in
        let w1 = (run_call a json run_id session c w).1 in
        let said = (run_calls a json run_id session cs w1).0 in
        (
          xs ++ ys,
          later ∙ ap (λ l. l ++ ys) reached ∙ append_assoc w.invocations xs ys,
          Answered-cons (length w.invocations) c _ xs cs said ys one (
              subst (λ k. Answered a json f k cs said ys)
                (ap length reached ∙ length-append w.invocations xs) rest),
        )
