-- ===== src/Agent/Turn/Authorized.antt =====
-- What reaches the tool registry, and what is audited.
use cortex_go.Agent.Turn.Answered.{Answered, run_calls-Answered}
use cortex_go.Agent.Config.{Agent, Json, ToolAuthorizer}
use cortex_go.Agent.Tools.{run_calls, emit, authorize, invoke_tool, attempt, audit, run_call}
use cortex_go.Agent.State.{no_usage, run_started, State, EventKind, ToolAuditEvent}
use mathlib.Core.List.{map-append}
use cortex_go.Prelude.{
  ℕ, suc, ◌≡◌, sym, ap, ◌∙◌, inl, inr, Bool, true, Option, none, some, List, [], ◌∷◌, ◌++◌, map,
  append-nil, append_assoc, arith, Bool-cases, Option-cases, length, get_elem?, drop,
  get_elem?-snoc, Str,
}
use cortex_go.Errors.{Error, Result, Result-cases}
use cortex_go.Provider.{Message, ToolCall, Usage, ChatResult}
use cortex_go.Agent.Turn.{
  OnDelta, assistant_message, stream_delta, record_model, ask, finish, run, prepare,
}
use cortex_go.Agent.Turn.Keeps.{call_model-keeps, loop-keeps, prepare-keeps}

-- Every invocation that reached the registry was allowed when it was made.
pub record Authorized (f : ToolAuthorizer) (invocations : List (Str × Str)) : Type 0 where
  pub allowed : (i : ℕ) (x : Str × Str) → get_elem? invocations i ≡ some x → f i x.0 ≡ none

Authorized-snoc :
    (f : ToolAuthorizer) (xs : List (Str × Str)) (y : Str × Str)
    → Authorized f xs
    → f (length xs) y.0 ≡ none
    → Authorized f (xs ++ y ∷ [])
Authorized-snoc f xs y h new = record {
  allowed = λ i x e. elim (get_elem?-snoc xs y i x e) [
    | inl old ↦ h.allowed i x old
    | inr (at, p) ↦ rw (at, ← p) new
  ];
}

module _ {M : Type 0} (a : Agent M) (json : Json) (run_id session : Str) where
  module _ (f : ToolAuthorizer) (guarded : a.authorizer ≡ some f) where
    abbrev Safe : State M → Type 0
    Safe w = Authorized f w.invocations

    authorize-eq :
        (name : Str) (w : State M)
        → authorize a json run_id session name w ≡ f (length w.invocations) name
    unfolding authorize
    authorize-eq name w = rw guarded

    attempt-Safe :
        (c : ToolCall) (w : State M) → Safe w → Safe (attempt a json run_id session c w).1
    unfolding attempt
    attempt-Safe c w h = elim (Option-cases (authorize a json run_id session c.function.name w)) [
      | inr (e, denied) ↦ rw (denied, attempt) h
      | inl free ↦ elim (Option-cases a.tools) [
        | inl n ↦ rw (free, attempt) (rw n h)
        | inr (box, there) ↦
            rw (free, attempt)
              (rw there (
                Authorized-snoc f w.invocations (c.function.name, c.function.arguments) h
                  (sym (authorize-eq c.function.name w) ∙ free)))
      ]
    ]

    emit-Safe : (k : EventKind) (w : State M) → Safe w → Safe (emit a json run_id session k w)
    unfolding emit
    emit-Safe k w h = elim (Bool-cases a.event_sink) [
      | inl e ↦ rw (e, emit) h
      | inr e ↦ rw (e, emit) h
    ]

    audit-Safe :
        (c : ToolCall) (e : Option Error) (w : State M)
        → Safe w
        → Safe (audit a json run_id session c e w)
    unfolding audit
    audit-Safe c e w h = elim (Bool-cases a.audit_logger) [
      | inl b ↦ rw (b, audit) h
      | inr b ↦ rw (b, audit) h
    ]

    run_call-Safe :
        (c : ToolCall) (w : State M) → Safe w → Safe (run_call a json run_id session c w).1
    unfolding run_call invoke_tool
    run_call-Safe c w h = emit-Safe _ _ (audit-Safe c _ _ (attempt-Safe c _ (emit-Safe _ w h)))

    record_model-Safe :
        (r : Result ChatResult) (w : State M)
        → Safe w
        → Safe (record_model a json run_id session r w)
    unfolding record_model
    record_model-Safe r w h =
        elim (Bool-cases (elim a.cost_monitor [ some b ↦ b | none ↦ a.telemetry ])) [
          | inl b ↦ rw b h
          | inr b ↦ rw b h
        ]

    stream_delta-Safe :
        (g : Option OnDelta) (d : Str) (w : State M)
        → Safe w
        → Safe (stream_delta a json run_id session g d w).1
    unfolding stream_delta
    stream_delta-Safe none d w h = h
    stream_delta-Safe (some g) d w h = h

    ask-Safe :
        (stream : Bool) (g : Option OnDelta) (round : ℕ) (ms : List Message) (w : State M)
        → Safe w
        → Safe (ask a json run_id session stream g round ms w).1
    unfolding ask
    ask-Safe stream g round ms w h = record_model-Safe _ _ (
        emit-Safe _ _
          (call_model-keeps a json run_id session Safe g (stream_delta-Safe g) stream ms w h))

    finish-Safe :
        (stream : Bool) (start : ℕ) (ms : List Message) (u : Usage) (r : ChatResult) (w : State M)
        → Safe w
        → Safe (finish a json run_id session stream start ms u r w).1
    unfolding finish
    finish-Safe stream start ms u r w h =
        elim (Option-cases
          (a.memory.append w.store session
            (drop start (ms ++ assistant_message r.content [] ∷ []))).0) [
              | inr (e, failed) ↦ rw (failed, finish) h
              | inl done ↦ rw (done, finish) (emit-Safe _ _ h)
            ]

    all_allowed :
        (input : Str) (stream : Bool) (g : Option OnDelta) (w : State M)
        → Authorized f w.invocations
        → Authorized f (run a json run_id session input stream g w).1.invocations
    unfolding run
    all_allowed input stream g w h =
        let begun : State M = record (emit a json run_id session run_started w) { streamed = [] } in
        let q = prepare a json run_id session input begun in
        let safe =
          prepare-keeps a json run_id session Safe (λ m t k. k) input begun
            (emit-Safe run_started w h) in
        elim (Result-cases q.0) [
          | inr (e, failed) ↦ rw (failed, run) safe
          | inl (history, prepared) ↦
              rw (prepared, run)
                (loop-keeps a json run_id session Safe ask-Safe run_call-Safe finish-Safe stream g
                  (length history) (suc a.max_tool_rounds) 0 _ no_usage q.1 safe)
        ]

    -- With an authorizer set, every tool call that a turn hands to the registry was allowed by the
    -- authorizer when it was made. In every round of tool calls, a call that the authorizer denies is
    -- answered with this error and reaches no handler, and one that it allows is answered with what
    -- the registry returns.
    pub run-Authorized :
        (input : Str) (stream : Bool) (g : Option OnDelta) (w : State M)
        → Authorized f w.invocations
        → Authorized f (run a json run_id session input stream g w).1.invocations
          × ((calls : List ToolCall) (t : State M)
              → (xs : List (Str × Str)) × ((run_calls a json run_id session calls t).1.invocations
                  ≡ t.invocations ++ xs)
                × Answered a json f
                    (length t.invocations)
                    calls
                    (run_calls a json run_id session calls t).0
                    xs)
    run-Authorized input stream g w h =
        (all_allowed input stream g w h, run_calls-Answered a json run_id session f guarded)

-- Whom an audit record names: the call's ID and the tool.
abbrev pub audited : List ToolAuditEvent → List (Str × Str)
audited = map (λ e. (e.call_id, e.tool_name))

abbrev pub named : List ToolCall → List (Str × Str)
named = map (λ c. (c.id, c.function.name))

module _ {M : Type 0} (a : Agent M) (json : Json) (run_id session : Str)
    (logging : a.audit_logger ≡ true) where
  audits-emit : (k : EventKind) (w : State M) → (emit a json run_id session k w).audits ≡ w.audits
  unfolding emit
  audits-emit k w = ground arith

  audits-attempt :
      (c : ToolCall) (w : State M) → (attempt a json run_id session c w).1.audits ≡ w.audits
  unfolding attempt
  audits-attempt c w = ground arith

  audited-audit :
      (c : ToolCall) (e : Option Error) (w : State M)
      → audited (audit a json run_id session c e w).audits
        ≡ audited w.audits ++ (c.id, c.function.name) ∷ []
  unfolding audit
  audited-audit c e w = rw (logging, audit) (map-append _ _ _)

  audited-run_call :
      (c : ToolCall) (w : State M)
      → audited (run_call a json run_id session c w).1.audits
        ≡ audited w.audits ++ (c.id, c.function.name) ∷ []
  unfolding run_call invoke_tool
  audited-run_call c w =
      ap audited (audits-emit _ _)
      ∙ audited-audit c _ _
      ∙ ap (λ l. audited l ++ (c.id, c.function.name) ∷ []) (audits-attempt c _ ∙ audits-emit _ w)

  -- With an audit logger set, the tool calls of a round are audited once each and in their order,
  -- under their IDs and names, whatever they return.
  pub audited-run_calls :
      (cs : List ToolCall) (w : State M)
      → audited (run_calls a json run_id session cs w).1.audits ≡ audited w.audits ++ named cs
  unfolding run_calls
  audited-run_calls [] w = sym (append-nil (audited w.audits))
  audited-run_calls (c ∷ cs) w =
      audited-run_calls cs (run_call a json run_id session c w).1
      ∙ ap (λ l. l ++ named cs) (audited-run_call c w)
      ∙ append_assoc (audited w.audits) ((c.id, c.function.name) ∷ []) (named cs)
