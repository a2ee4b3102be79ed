-- ===== src/Permissions/Guard.antt =====
-- src/common/guards/permissions.guard.ts and roles.guard.ts.
use msk_back.Base.{
  ℕ, String, ◌≡◌, refl, ◌↔◌, inl, inr, Bool, true, false, ◌||◌, Option, none, some, List, [], ◌∷◌,
  arith, if◌then◌else◌, get_or, Bool-cases, any, all,
}
use msk_back.Base.Action.{Result, forbidden, ok, err}
use msk_back.Permissions.Catalog.{Role, mem, super_user}
use msk_back.Permissions.{PermissionDb, same_role, effective_permissions}

-- The user that the token names: an id and the role, or less.
pub record AuthedUser : Type 0 where
  pub id : Option ℕ
  pub role : Option Role
  pub primary_role : Option Role

abbrev pub is_super : Option Role → Bool
is_super (some super_user) = true
is_super _ = false

-- The loop over the codes that the route requires.
unfoldable pub require_all : List String → List String → Result Bool
require_all effective [] = ok true
require_all effective (c ∷ cs) =
    let rest = require_all effective cs in
    if mem c effective then rest else err (forbidden "Missing permission")

-- The checks behind the early return for a route that requires nothing.
unfoldable pub check_permissions : List String → AuthedUser → PermissionDb → Result Bool
check_permissions required user db = elim user.id [
  | none ↦ err (forbidden "Authentication required.")
  | some id ↦ elim user.role [
    | none ↦ err (forbidden "Authentication required.")
    | some role ↦
        if is_super user.role || is_super user.primary_role
        then ok true
        else require_all (effective_permissions id (get_or user.primary_role role) db) required
  ]
]

unfoldable pub can_activate : List String → AuthedUser → PermissionDb → Result Bool
can_activate [] user db = ok true
can_activate (c ∷ cs) user db = check_permissions (c ∷ cs) user db

abbrev pub has_role : Option Role → Role → Bool
has_role none r = false
has_role (some s) r = same_role s r

-- `RolesGuard.canActivate`, of a user that is there or not.
unfoldable pub roles_can_activate : List Role → Option AuthedUser → Result Bool
roles_can_activate [] user = ok true
roles_can_activate (r ∷ rs) none = err (forbidden "Authentication required")
roles_can_activate (r ∷ rs) (some user) =
    if any (has_role user.role) (r ∷ rs) || any (has_role user.primary_role) (r ∷ rs)
    then ok true
    else err (forbidden "Role is not allowed for this resource")

require_all-all :
    (effective required : List String)
    → (require_all effective required ≡ ok true) ↔ (all (λ c. mem c effective) required ≡ true)
unfolding require_all
require_all-all effective [] = (λ e. refl, λ e. refl)
require_all-all effective (c ∷ cs) = elim (Bool-cases (mem c effective)) [
  | inl has ↦ ground (arith, require_all-all effective cs)
  | inr lacks ↦ (λ e. ground arith, λ e. ground arith)
]

-- A user with an id and a role passes the guard of a route if and only if the user is a super user by
-- either role, or has every permission that the route requires, by the primary role where there is
-- one.
pub can_activate_iff :
    (required : List String) (user : AuthedUser) (db : PermissionDb) (id : ℕ) (role : Role)
    → user.id ≡ some id
    → user.role ≡ some role
    → (can_activate required user db ≡ ok true) ↔ (
        (is_super user.role
          || is_super user.primary_role
          || all
              (λ c. mem c (effective_permissions id (get_or user.primary_role role) db))
              required)
        ≡ true)
unfolding can_activate check_permissions
can_activate_iff [] user db id role known ranked =
    elim (Bool-cases (is_super user.role || is_super user.primary_role)) [
      | inl super ↦ (λ e. ground arith, λ e. refl)
      | inr ordinary ↦ (λ e. ground arith, λ e. refl)
    ]
can_activate_iff (c ∷ cs) user db id role known ranked =
    elim (Bool-cases (is_super user.role || is_super user.primary_role)) [
      | inl super ↦ ground (arith)
      | inr ordinary ↦ ground (
        arith,
        require_all-all (effective_permissions id (get_or user.primary_role role) db) (c ∷ cs),
      )
    ]
