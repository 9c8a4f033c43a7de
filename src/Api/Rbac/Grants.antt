-- ===== src/Api/Rbac/Grants.antt =====
-- What a grant changes.
use cortex_go.Prelude.{
  ◌≡◌, refl, sym, ap, ◌∙◌, inl, inr, Bool, true, false, ◌&&◌, ◌||◌, Option, some, List, [], ◌∷◌,
  arith, if◌then◌else◌, Bool-cases, is_some, Str, str_eq, str_eq_iff, str_eq_sym, lookup, put,
  lookup-put,
}
use cortex_go.Api.Rbac.{
  Tenant, Rbac, Permissions, permissions_of, add_permissions, grant, has_permission, any_role,
  allow,
}

unfoldable pub member : Str → List Str → Bool
member x [] = false
member x (y ∷ ys) = str_eq y x || member x ys

is_some-if {ℓ} :
    {A : Type ℓ} (b : Bool) (x : A) (o : Option A)
    → is_some (if b then some x else o) ≡ (b || is_some o)
is_some-if true x o = refl
is_some-if false x o = refl

or-or-swap : (a b c : Bool) → ((a || b) || c) ≡ (b || (a || c))
or-or-swap a b c = ground arith

add_permissions-lookup :
    (p : Str) (ps : List Str) (set : Permissions)
    → is_some (lookup p (add_permissions ps set)) ≡ (member p ps || is_some (lookup p set))
unfolding add_permissions member
add_permissions-lookup p [] set = refl
add_permissions-lookup p (q ∷ ps) set =
    add_permissions-lookup p ps (put q tt set)
    ∙ ap (λ o. member p ps || is_some o) (lookup-put q p tt set)
    ∙ ap (λ b. member p ps || b) (is_some-if (str_eq q p) tt (lookup p set))
    ∙ sym (or-or-swap (str_eq q p) (member p ps) (is_some (lookup p set)))

permissions_of-put :
    (role s : Str) (x : Permissions) (r : Rbac)
    → permissions_of (put role x r) s ≡ (if str_eq role s then x else permissions_of r s)
unfolding permissions_of
permissions_of-put role s x r = ground (arith, lookup-put role s x r)

pub has_permission-grant :
    (role : Str) (ps : List Str) (r : Rbac) (p s : Str)
    → has_permission (grant role ps r) p s
      ≡ ((str_eq s role && member p ps) || has_permission r p s)
unfolding has_permission grant
has_permission-grant role ps r p s = elim (Bool-cases (str_eq role s)) [
  | inl same ↦
      rw (permissions_of-put, str_eq_sym s role, same, ← (str_eq_iff role s).0 same)
        (add_permissions-lookup p ps (permissions_of r role))
  | inr other ↦ rw (permissions_of-put, str_eq_sym s role, other)
]

pub any_role-grant :
    (role : Str) (ps : List Str) (r : Rbac) (p : Str) (roles : List Str)
    → any_role (has_permission (grant role ps r) p) roles
      ≡ ((member role roles && member p ps) || any_role (has_permission r p) roles)
unfolding any_role member
any_role-grant role ps r p [] = refl
any_role-grant role ps r p (s ∷ roles) =
    ground (arith, has_permission-grant role ps r p s, any_role-grant role ps r p roles)

-- After a grant a tenant has a permission exactly if it had it before, or has the role and the
-- permission is among those granted.
pub allow-grant :
    (role : Str) (ps : List Str) (r : Rbac) (t : Tenant) (p : Str)
    → allow (grant role ps r) t p ≡ ((member role t.roles && member p ps) || allow r t p)
unfolding allow
allow-grant role ps r t p = any_role-grant role ps r p t.roles
