-- ===== src/Security/Tenants/Isolation.antt =====
-- A tenant's memory keeps the contract of a store, and when two tenants cannot meet in it.
use cortex_go.Errors.{replace_unsupported, Error, ok}
use cortex_go.Prelude.{
  ◌≡◌, refl, sym, ap, subst, ◌∙◌, ◌≢◌, inl, inr, false, Option, some, List, [], ◌∷◌, ◌++◌,
  append_assoc, Option-cases, All, Str, trim_space, is_empty,
}
use cortex_go.Provider.{Message}
use cortex_go.Memory.Sessions.{Store}
use cortex_go.Memory.Sessions.Laws.{Laws, Writes, Replaces}
use cortex_go.Security.Tenants
use cortex_go.Security.Tenants.{require_tenant, scoped, tenant_memory}

append-cancel : (t s s' : Str) → t ++ s ≡ t ++ s' → s ≡ s'
append-cancel [] s s' h = h
append-cancel (c ∷ t) s s' h = append-cancel t s s' (cc h)

scoped-injective : (t s s' : Str) → scoped t s ≡ scoped t s' → s ≡ s'
scoped-injective t s s' h = cc (append-cancel t (b':' ∷ s) (b':' ∷ s') h)

-- No byte of the text is a colon.
abbrev pub NoColon : Str → Type 0
NoColon = All (λ c. c ≢ b':')

-- Two tenants whose names have no colon have no session of the store in common.
pub scoped-eq :
    (t u s s' : Str) → NoColon t → NoColon u → scoped t s ≡ scoped u s' → (t ≡ u) × (s ≡ s')
scoped-eq [] [] s s' p q h = (refl, cc h)
scoped-eq [] (d ∷ u) s s' p q h = absurd (q.0 (sym (cc h)))
scoped-eq (c ∷ t) [] s s' p q h = absurd (p.0 (cc h))
scoped-eq (c ∷ t) (d ∷ u) s s' p q h =
    let (e, e') = scoped-eq t u s s' p.1 q.1 (cc h) in
    let same : c ≡ d = cc h in (λ i. same i ∷ e i, e')

require_tenant-some : (t : Str) → is_empty (trim_space t) ≡ false → require_tenant (some t) ≡ ok t
unfolding require_tenant
require_tenant-some t h = rw h

list-scoped :
    {M : Type 0} (store : Store M) (t s : Str) (m : M)
    → is_empty (trim_space t) ≡ false
    → Tenants.list (some t) store m s ≡ store.list m (scoped t s)
unfolding Tenants.list
list-scoped store t s m h = rw (require_tenant-some t h, Tenants.list)

-- Where a tenant's name is another's followed by a colon and more, its sessions are sessions of the
-- other: reading session `s` as tenant `t:u` is reading session `u:s` as tenant `t`.
pub list-collision :
    {M : Type 0} (store : Store M) (t u s : Str) (m : M)
    → is_empty (trim_space t) ≡ false
    → is_empty (trim_space (scoped t u)) ≡ false
    → Tenants.list (some (scoped t u)) store m s ≡ Tenants.list (some t) store m (scoped u s)
list-collision store t u s m p q =
    list-scoped store (scoped t u) s m q
    ∙ ap (store.list m) (append_assoc t (b':' ∷ u) (b':' ∷ s))
    ∙ sym (list-scoped store t (scoped u s) m p)

module _ {M : Type 0} (store : Store M) (view : M → Str → List Message)
    (laws : Laws store view) where
  refused-Writes :
      (view' : M → Str → List Message) (id : Str) (ms : List Message) (m : M) (e : Error)
      → Writes view' id ms m (some e, m)
  refused-Writes view' id ms m e = record { written = λ z. cc; others = λ j h. refl }

  scope-Writes :
      (t id : Str) (ms : List Message) (m : M) (r : Option Error × M)
      → Writes view (scoped t id) ms m r
      → Writes (λ n j. view n (scoped t j)) id ms m r
  scope-Writes t id ms m r w = record {
    written = w.written;
    others = λ j h. w.others (scoped t j) (λ e. h (scoped-injective t id j e));
  }

  -- For a context with a tenant, the tenant's memory keeps the contract of a store over the sessions
  -- under the tenant's name.
  pub tenant_memory-Laws :
      (ctx : Option Str) (t : Str)
      → require_tenant ctx ≡ ok t
      → Laws (tenant_memory ctx store) (λ m id. view m (scoped t id))
  unfolding Tenants.append Tenants.list Tenants.replace
  tenant_memory-Laws ctx t h = record {
    append_law = λ m id ms.
        rw (h, Tenants.append) (scope-Writes t id _ m _ (laws.append_law m (scoped t id) ms));
    list_law = λ m id e. laws.list_law m (scoped t id) (rw (h, Tenants.list) at e);
    list_keeps = λ m id j. rw (h, Tenants.list) (laws.list_keeps m (scoped t id) (scoped t j));
    replace_law = λ m id ms. elim (Option-cases store.replace) [
      | inl n ↦
          rw (h, Tenants.replace)
            (rw n (refused-Writes (λ k j. view k (scoped t j)) id ms m replace_unsupported))
      | inr (f, e) ↦
          rw (h, Tenants.replace)
            (rw e (
              scope-Writes t id ms m _
                (subst (Replaces view) e laws.replace_law m (scoped t id) ms)))
    ];
  }
