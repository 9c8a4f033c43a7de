-- ===== src/Api/Http/Isolated.antt =====
-- What a request of one tenant leaves of the sessions of another.
use cortex_go.Api.Http.Served.{serve-AtMostEntitled, IsTurn}
use cortex_go.Api.Http.Serve.{serve, World, Surroundings}
use cortex_go.Agent.Turn.Persist.{run-others}
use cortex_go.Api.Gate.Decisions.{IsCredited}
use cortex_go.Api.Rbac.{Tenant}
use cortex_go.Api.Chat.Inputs.{chat_session-injective}
use cortex_go.Api.Gate.{wants_credential}
use cortex_go.Api.Chat.{chat_session}
use cortex_go.Agent.State.{State}
use cortex_go.Api.Http.{ServerRequest}
use cortex_go.Memory.Sessions.Laws.{Laws}
use cortex_go.Provider.{Message}
use cortex_go.Agent.Config.{Agent}
use cortex_go.Security.Tenants.Isolation.{NoColon}
use cortex_go.Prelude.{◌≡◌, ap, ◌∙◌, ◌≢◌, inl, inr, true, false, some, List, Str, bytes, str_eq}

-- A tenant with a name of its own: not "default", and without a colon.
pub record IsNamed (t : Str) : Type 0 where
  pub no_colon : NoColon t
  pub not_default : str_eq t (bytes "default") ≡ false

module _ {M : Type 0} (x : Surroundings) (a : Agent M) (view : M → Str → List Message)
    (laws : Laws a.memory view) where
  turn-others :
      (t u s : Str) (w w' : State M)
      → IsNamed t
      → IsNamed u
      → t ≢ u
      → IsTurn x a t w w'
      → view w'.store (chat_session (some u) s) ≡ view w.store (chat_session (some u) s)
  turn-others t u s w w' nt nu other turn =
      let apart : chat_session (some t) turn.session ≢ chat_session (some u) s = λ e. other (
        chat_session-injective t u turn.session s nt.no_colon nu.no_colon nt.not_default
          nu.not_default e) in
      ap (λ v. view v.store (chat_session (some u) s)) turn.ran
      ∙ run-others a x.json x.run_id (chat_session (some t) turn.session) view laws
          (chat_session (some u) s) apart turn.input turn.stream turn.callback w

  -- On a server with API keys or a token verifier, whose agent has a memory that keeps its contract:
  -- unless a request carries an accepted credential of the tenant `u`, it leaves every session of `u`
  -- as it was, whatever it asks for; here the accepted tenant and `u` have names of their own.
  pub serve-others :
      (r : ServerRequest) (w : World M) (u s : Str)
      → w.server.agent ≡ some a
      → wants_credential w.server.guard ≡ true
      → IsNamed u
      → ((t : Tenant) → IsCredited w.server.guard r.gate t → IsNamed t.id × (t.id ≢ u))
      → view (serve x r w).1.state.store (chat_session (some u) s)
        ≡ view w.state.store (chat_session (some u) s)
  serve-others r w u s h wants nu foreign = elim (serve-AtMostEntitled x a r w h wants) [
    | inl same ↦ ap (λ v. view v.store (chat_session (some u) s)) same
    | inr e ↦
        let (nt, other) = foreign e.tenant e.credited in
        turn-others e.tenant.id u s w.state (serve x r w).1.state nt nu other e.turn
  ]
