-- ===== src/Security/Permissions.antt =====
-- internal/security/security.go: `PermissionStore`, roles with permissions on resources.
use cortex_go.Api.Rbac
use cortex_go.Api.Rbac.{Rbac, has_permission, any_role}
use cortex_go.Api.Rbac.Grants.{member, has_permission-grant, any_role-grant}
use cortex_go.Security.Identities.{Identity}
use cortex_go.Prelude.{◌≡◌, Bool, ◌&&◌, ◌||◌, [], ◌∷◌, ◌++◌, arith, Str, bytes, str_eq}

abbrev pub admin : Str
admin = bytes "admin"

-- resource + ":" + action
abbrev pub permission_on : Str → Str → Str
permission_on resource action = resource ++ (b':' ∷ action)

-- The maps are those of `RBAC`.
unfoldable pub grant : Str → Str → Str → Rbac → Rbac
grant role resource action roles = Rbac.grant role (permission_on resource action ∷ []) roles

unfoldable pub allow : Rbac → Identity → Str → Str → Bool
allow roles id resource action =
    has_permission roles (permission_on resource action) admin
    || any_role (has_permission roles (permission_on resource action)) id.roles

-- After a grant an identity has a permission exactly if it had it before, or the permission is the one
-- granted and the role is one of the identity's or "admin": what is granted to "admin" is granted to
-- everybody.
pub allow_permission-grant :
    (role resource action : Str) (roles : Rbac) (id : Identity) (resource' action' : Str)
    → allow (grant role resource action roles) id resource' action' ≡ (
        ((str_eq admin role || member role id.roles)
          && str_eq (permission_on resource action) (permission_on resource' action'))
        || allow roles id resource' action')
unfolding allow grant member
allow_permission-grant role resource action roles id resource' action' =
    let p = permission_on resource action in
    let p' = permission_on resource' action' in
    ground (
      arith,
      has_permission-grant role (p ∷ []) roles p' admin,
      any_role-grant role (p ∷ []) roles p' id.roles,
    )
