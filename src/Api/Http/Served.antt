-- ===== src/Api/Http/Served.antt =====
-- What a request must show before a turn of the agent runs for it.
use cortex_go.Api.Chat.{session_name, chat_input, chat_session, is_blank_input}
use cortex_go.Api.Http.Serve.{
  Response, serve_counted, is_chat_path, can_flush, serve_cors, serve, World, decide, route_chat,
  serve_gated, route, Surroundings,
}
use cortex_go.Api.Gate.{
  identify, limit, admit, Request, Server, gate, Decision, is_denied, wants_credential, health,
  refuse, too_many, forward,
}
use cortex_go.Api.Gate.Decisions.{Step-cases, gate-IsCredited, IsCredited}
use cortex_go.Api.Http.{enter, Reply, ServerRequest, HttpServer, ChatBody}
use cortex_go.Api.Rbac.{Tenant}
use cortex_go.Api.Http.Complete.{
  body_limit, write_delta, complete, stream_to, decode_chat, answer_chat, chat,
}
use cortex_go.Errors.{Result-cases}
use cortex_go.Api.Chat.Inputs.{chat_input_bounds, NoNul}
use cortex_go.Agent.Turn.{run, chat_stream_with_result, chat_with_result, OnDelta}
use cortex_go.Security.Identities.{max_prompt}
use cortex_go.Agent.State.{State}
use cortex_go.Agent.Config.{Agent}
use cortex_go.Prelude.{
  ℕ, ◌≤◌, ◌≡◌, refl, sym, subst, ◌⊎◌, inl, inr, Bool, true, false, not, Option, none, some, ◌∷◌,
  ◌++◌, arith, if◌then◌else◌, Bool-cases, Option-cases, if_keeps, length, Str, bytes, str_eq,
  str_eq_iff, is_empty,
}

-- A session of the tenant: its name begins with the tenant's and a colon. The tenant "default" has no
-- such prefix.
pub record IsPlaced (t place : Str) : Type 0 where
  pub name : Str
  pub named : is_empty name ≡ false
  pub placed : place ≡ (if str_eq t (bytes "default") then name else t ++ (b':' ∷ name))

chat_session-IsPlaced : (t session : Str) → IsPlaced t (chat_session (some t) session)
unfolding chat_session
chat_session-IsPlaced t session = record {
  name = session_name session;
  named = ground arith;
  placed = ground arith;
}

-- The turn that the request led to, for the tenant `t`: the agent, the session and the input.
pub record IsTurn {M : Type 0} (x : Surroundings) (a : Agent M) (t : Str) (w w' : State M)
    : Type 0 where
  pub session : Str
  pub input : Str
  pub stream : Bool
  pub callback : Option OnDelta
  pub bounds : (is_blank_input input ≡ false) × NoNul input × (length input ≤ max_prompt)
  pub place : IsPlaced t (chat_session (some t) session)
  pub ran : w' ≡ (run a x.json x.run_id (chat_session (some t) session) input stream callback w).1

-- Nothing ran, or one turn did.
abbrev pub AtMostTurn : {M : Type 0} → Surroundings → Agent M → Str → State M → State M → Type 0
AtMostTurn x a t w w' = (w' ≡ w) ⊎ IsTurn x a t w w'

module _ {M : Type 0} (x : Surroundings) (a : Agent M) (t : Str) where
  -- The turns of a state that a reply comes with.
  abbrev Turns : State M → Reply × State M → Type 0
  Turns w q = AtMostTurn x a t w q.1

  abbrev IsBounded : Str → Type 0
  IsBounded input = (is_blank_input input ≡ false) × NoNul input × (length input ≤ max_prompt)

  complete-Turns :
      (session model input : Str) (w : State M)
      → IsBounded input
      → Turns w (complete a x.json x.run_id (chat_session (some t) session) model input w)
  unfolding complete chat_with_result
  complete-Turns session model input w h =
      let r = run a x.json x.run_id (chat_session (some t) session) input false none w in
      let same : (complete a x.json x.run_id (chat_session (some t) session) model input w).1
          ≡ r.1 =
        ground (arith, Result-cases r.0) in
      inr (record {
        session = session;
        input = input;
        stream = false;
        callback = none;
        bounds = h;
        place = chat_session-IsPlaced t session;
        ran = same;
      })

  stream_to-Turns :
      (flushes : Bool) (session input : Str) (w : State M)
      → IsBounded input
      → Turns w (stream_to a x.json x.run_id flushes (chat_session (some t) session) input w)
  unfolding stream_to chat_stream_with_result
  stream_to-Turns flushes session input w h = if_keeps (Turns w) (not flushes) _ _ (inl refl) (
      inr (record {
        session = session;
        input = input;
        stream = true;
        callback = some write_delta;
        bounds = h;
        place = chat_session-IsPlaced t session;
        ran = refl;
      }))

  answer_chat-Turns :
      (flushes : Bool) (b : ChatBody) (w : State M)
      → Turns w (answer_chat a x.json x.run_id flushes (some t) b w)
  unfolding answer_chat
  answer_chat-Turns flushes b w = elim (Option-cases (chat_input b.input b.messages)) [
    | inl e ↦ inl (rw (e, answer_chat))
    | inr (input, e) ↦
        let h = chat_input_bounds b.input b.messages input e in
        rw (e, answer_chat)
          (if_keeps (Turns w) b.stream _ _ (stream_to-Turns flushes b.session_id input w h)
            (complete-Turns b.session_id b.model input w h))
  ]

  decode_chat-Turns :
      (limit : ℕ) (flushes : Bool) (body : Str) (w : State M)
      → Turns w (decode_chat a x.json x.run_id x.decoder limit flushes (some t) body w)
  unfolding decode_chat
  decode_chat-Turns limit flushes body w = elim (Result-cases (x.decoder.first limit body)) [
    | inr (e, bad) ↦ inl (rw (bad, decode_chat))
    | inl (b, good) ↦
        rw (good, decode_chat)
          (if_keeps (Turns w) (not (x.decoder.at_end limit body)) _ _ (inl refl)
            (answer_chat-Turns flushes b w))
  ]

  chat-Turns :
      (s : HttpServer M) (flushes : Bool) (r : ServerRequest) (w : State M)
      → s.agent ≡ some a
      → Turns w (chat s x.json x.run_id x.decoder flushes (some t) r w)
  unfolding chat
  chat-Turns s flushes r w h =
      if_keeps (Turns w) (not (str_eq r.method (bytes "POST"))) _ _ (inl refl)
        (rw h (decode_chat-Turns (body_limit s.max_body_bytes) flushes r.body w))

health-is_chat_path : (path : Str) → path ≡ bytes "/healthz" → is_chat_path path ≡ false
unfolding is_chat_path str_eq
health-is_chat_path path h = subst (λ p. is_chat_path p ≡ false) (sym h) refl

admit-health : (s : Server) (t : Tenant) (now : ℕ) → (admit s t now).0 ≡ health → ⊥
unfolding admit limit
admit-health s t now h = ground arith

gate-health :
    (s : Server) (r : Request) (now : ℕ)
    → (gate s r now).0 ≡ health
    → str_eq r.path (bytes "/healthz") ≡ true
unfolding gate
gate-health s r now h = elim (Bool-cases (str_eq r.path (bytes "/healthz"))) [
  | inl e ↦ e
  | inr e ↦ elim (Step-cases (identify s r)) [
    | inr (d, stopped) ↦ (let p : refuse d ≡ health = rw stopped at (rw e at h) in cc p)
    | inl (u, passed) ↦ absurd (admit-health s u now (rw passed at (rw e at h)))
  ]
]

module _ {M : Type 0} (x : Surroundings) (a : Agent M) where
  route-Turns :
      (t : Str) (r : ServerRequest) (w : World M)
      → w.server.agent ≡ some a
      → AtMostTurn x a t w.state (route x (some t) r w).1.state
  unfolding route route_chat
  route-Turns t r w h =
      let P : Reply × World M → Type 0 = λ q. AtMostTurn x a t w.state q.1.state in
      let turned = chat-Turns x a t w.server (can_flush x r) r w.state h in
      let path = r.gate.path in
      if_keeps P (is_chat_path path) _ _ turned (
        if_keeps P (str_eq path (bytes "/healthz")) _ _ (inl refl) (
          if_keeps P (str_eq path (bytes "/metrics")) _ _
            (if_keeps P w.server.metrics _ _ (inl refl) (inl refl))
            (if_keeps P (str_eq path (bytes "/openapi.json")) _ _ (inl refl) (inl refl))))

  -- What a request that was served by a turn has shown.
  pub record IsEntitled (guard : Server) (r : ServerRequest) (before after : State M) : Type 0 where
    pub tenant : Tenant
    pub credited : IsCredited guard r.gate tenant
    pub free : is_denied guard tenant ≡ false
    pub turn : IsTurn x a tenant.id before after

  abbrev pub AtMostEntitled : Server → ServerRequest → State M → State M → Type 0
  AtMostEntitled guard r before after = (after ≡ before) ⊎ IsEntitled guard r before after

  route_health-state :
      (r : ServerRequest) (w : World M)
      → str_eq r.gate.path (bytes "/healthz") ≡ true
      → (route x none r w).1.state ≡ w.state
  unfolding route
  route_health-state r w h =
      let other : is_chat_path r.gate.path ≡ false =
        health-is_chat_path r.gate.path ((str_eq_iff r.gate.path (bytes "/healthz")).0 h) in
      rw (other, route) (rw h refl)

  decide-AtMostEntitled :
      (r : ServerRequest) (w : World M) (d : Decision) (guard : Server)
      → w.server.agent ≡ some a
      → wants_credential w.server.guard ≡ true
      → (gate w.server.guard r.gate x.now).0 ≡ d
      → AtMostEntitled w.server.guard r w.state
          (decide x d r (record w { server = record w.server { guard = guard } })).1.state
  unfolding decide
  decide-AtMostEntitled r w health guard h wants e =
      inl (route_health-state r _ (gate-health w.server.guard r.gate x.now e))
  decide-AtMostEntitled r w (refuse d) guard h wants e = inl refl
  decide-AtMostEntitled r w (too_many n) guard h wants e = inl refl
  decide-AtMostEntitled r w (forward t) guard h wants e =
      let (credited, free) = gate-IsCredited w.server.guard r.gate x.now t wants e in
      elim (route-Turns t.id r (record w { server = record w.server { guard = guard } }) h) [
        | inl same ↦ inl same
        | inr turn ↦ inr (record { tenant = t; credited = credited; free = free; turn = turn })
      ]

  serve_gated-AtMostEntitled :
      (r : ServerRequest) (w : World M)
      → w.server.agent ≡ some a
      → wants_credential w.server.guard ≡ true
      → AtMostEntitled w.server.guard r w.state (serve_gated x r w).1.state
  unfolding serve_gated
  serve_gated-AtMostEntitled r w h wants =
      decide-AtMostEntitled r w (gate w.server.guard r.gate x.now).0
        (gate w.server.guard r.gate x.now).1 h wants refl

  serve_cors-AtMostEntitled :
      (r : ServerRequest) (w : World M)
      → w.server.agent ≡ some a
      → wants_credential w.server.guard ≡ true
      → AtMostEntitled w.server.guard r w.state (serve_cors x r w).1.state
  unfolding serve_cors
  serve_cors-AtMostEntitled r w h wants =
      if_keeps (λ (q : Response × World M). AtMostEntitled w.server.guard r w.state q.1.state)
        (str_eq r.method (bytes "OPTIONS")) _ _ (inl refl) (serve_gated-AtMostEntitled r w h wants)

  -- On a server with API keys or a token verifier, a request either leaves the agent's state as it
  -- was, or one turn of the agent ran for it: then it carried a key or a token that is accepted, for
  -- the tenant and roles of that identity, which the authorizer does not deny; the name of the
  -- turn's session begins with that tenant's and a colon, unless the tenant is called "default"; and
  -- its input is not blank, has no NUL byte and at most 100000 bytes.
  pub serve-AtMostEntitled :
      (r : ServerRequest) (w : World M)
      → w.server.agent ≡ some a
      → wants_credential w.server.guard ≡ true
      → AtMostEntitled w.server.guard r w.state (serve x r w).1.state
  unfolding serve serve_counted
  serve-AtMostEntitled r w h wants =
      if_keeps (λ (q : Response × World M). AtMostEntitled w.server.guard r w.state q.1.state)
        w.server.metrics _ _
        (serve_cors-AtMostEntitled r (record w { metrics = enter w.metrics }) h wants)
        (serve_cors-AtMostEntitled r w h wants)
