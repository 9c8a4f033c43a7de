-- ===== src/Api/Rbac.antt =====
-- internal/api/access.go: tenants and `RBAC`, roles with their permissions.
pub mod Grants
use cortex_go.Prelude.{
  Bool, false, ◌||◌, none, some, List, [], ◌∷◌, is_some, Str, Dict, lookup, put,
}

-- Tenant
pub record Tenant : Type 0 where
  pub id : Str
  pub roles : List Str

-- map[string]map[string]struct{}: a set of permissions for each role
abbrev pub Permissions : Type 0
Permissions = Dict (Unit {0})

abbrev pub Rbac : Type 0
Rbac = Dict Permissions

-- r.roles[role], nil for a role that is not there
unfoldable pub permissions_of : Rbac → Str → Permissions
permissions_of r role = elim (lookup role r) [ none ↦ [] | some ps ↦ ps ]

unfoldable pub add_permissions : List Str → Permissions → Permissions
add_permissions [] set = set
add_permissions (p ∷ ps) set = add_permissions ps (put p tt set)

unfoldable pub grant : Str → List Str → Rbac → Rbac
grant role ps r = put role (add_permissions ps (permissions_of r role)) r

-- _, ok := r.roles[role][permission]
unfoldable pub has_permission : Rbac → Str → Str → Bool
has_permission r permission role = is_some (lookup permission (permissions_of r role))

unfoldable pub any_role : (Str → Bool) → List Str → Bool
any_role test [] = false
any_role test (role ∷ roles) = test role || any_role test roles

unfoldable pub allow : Rbac → Tenant → Str → Bool
allow r t permission = any_role (has_permission r permission) t.roles
