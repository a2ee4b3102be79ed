-- ===== src/Permissions.antt =====
-- src/modules/permissions/permissions.service.ts and the guards of src/common/guards: who may do
-- what.
mod Examples
pub mod Catalog
pub mod Decided
pub mod Overrides
pub mod Matrix
pub mod Seeded
pub mod Guard
use msk_back.Base.{
  ℕ, String, Bool, true, false, not, ◌&&◌, ◌||◌, List, [], ◌∷◌, ◌++◌, map, ◌==◌, if◌then◌else◌,
  filter, any, all, update_where, delete_where,
}
use msk_back.Base.Action.{Action, gets, ◌>>=◌, ◌>>◌, throw_if, modify, internal_error}
use msk_back.Base.Text.{same_text}
use msk_back.Permissions.Catalog.{
  Role, PermissionDef, permission_catalog, mem, all_codes, default_permissions_for_role, web_guest,
  receptionist, staff, supervisor, supplier, admin, super_user,
}

pub record RolePermission : Type 0 where
  pub role : Role
  pub permission_code : String

pub record Override : Type 0 where
  pub user_id : ℕ
  pub permission_code : String
  pub granted : Bool

pub record PermissionDb : Type 0 where
  pub permissions : List PermissionDef
  pub role_permissions : List RolePermission
  pub overrides : List Override
  -- The ids of the users.
  pub users : List ℕ

abbrev pub role_no : Role → ℕ
role_no web_guest = 0
role_no receptionist = 1
role_no staff = 2
role_no supervisor = 3
role_no supplier = 4
role_no admin = 5
role_no super_user = 6

abbrev pub same_role : Role → Role → Bool
same_role r s = role_no r == role_no s

unfoldable pub list_role_permissions : Role → PermissionDb → List String
list_role_permissions role db =
    map (λ r. r.permission_code) (filter (λ r. same_role r.role role) db.role_permissions)

-- JavaScript's `Set`, as the list of its elements in the order of their insertion.
unfoldable pub set_add : String → List String → List String
set_add code s = if mem code s then s else s ++ code ∷ []

unfoldable pub set_delete : String → List String → List String
set_delete code s = delete_where (λ c. same_text c code) s

unfoldable pub set_from : List String → List String → List String
set_from [] s = s
set_from (c ∷ cs) s = set_from cs (set_add c s)

unfoldable pub apply_overrides : List Override → List String → List String
apply_overrides [] s = s
apply_overrides (o ∷ os) s =
    apply_overrides os
      (if o.granted then set_add o.permission_code s else set_delete o.permission_code s)

abbrev pub is_of : ℕ → Override → Bool
is_of user_id o = o.user_id == user_id

unfoldable pub effective_permissions : ℕ → Role → PermissionDb → List String
effective_permissions user_id role db =
    apply_overrides (filter (is_of user_id) db.overrides)
      (set_from (list_role_permissions role db) [])

abbrev pub role_row : Role → String → RolePermission
role_row role code = record { role = role; permission_code = code }

-- The foreign key to the table of the permissions.
abbrev pub is_known : PermissionDb → String → Bool
is_known db code = any (λ p. same_text p.code code) db.permissions

abbrev pub write_role : Role → List String → PermissionDb → PermissionDb
write_role role codes db = record db {
  role_permissions =
      delete_where (λ r. same_role r.role role) db.role_permissions ++ map (role_row role) codes;
}

-- The transaction: a code that is of no permission undoes the deletion too.
unfoldable pub set_role_permissions : Role → List String → Action PermissionDb (Unit {0})
set_role_permissions role codes = do
  let unique = set_from codes []
  throw_if (not (← gets (λ db. all (is_known db) unique)))
      (internal_error "Foreign key constraint failed on the field: `permissionCode`")
  modify (write_role role unique)

pub data OverrideMode : Type 0 where
  grant revoke clear : OverrideMode

abbrev pub is_key : ℕ → String → Override → Bool
is_key user_id code o = is_of user_id o && same_text o.permission_code code

abbrev pub set_granted : Bool → Override → Override
set_granted granted o = record o { granted = granted }

unfoldable pub upsert_override : ℕ → String → Bool → List Override → List Override
upsert_override user_id code granted os =
    if any (is_key user_id code) os
    then update_where (is_key user_id code) (set_granted granted) os
    else os ++ record { user_id = user_id; permission_code = code; granted = granted } ∷ []

-- A new row needs the user and the permission: its two foreign keys.
abbrev pub may_override : ℕ → String → PermissionDb → Bool
may_override user_id code db =
    any (is_key user_id code) db.overrides || any (λ u. u == user_id) db.users && is_known db code

unfoldable pub write_override : ℕ → String → Bool → Action PermissionDb (Unit {0})
write_override user_id code granted = do
  throw_if (not (← gets (may_override user_id code)))
      (internal_error "Foreign key constraint failed")
  modify (λ db. record db { overrides = upsert_override user_id code granted db.overrides })

unfoldable pub set_user_override : ℕ → String → OverrideMode → Action PermissionDb (Unit {0})
set_user_override user_id code clear =
    modify (λ db. record db { overrides = delete_where (is_key user_id code) db.overrides })
set_user_override user_id code grant = write_override user_id code true
set_user_override user_id code revoke = write_override user_id code false

-- The row of the catalog, inserted or brought up to date.
unfoldable pub upsert_permission : List PermissionDef → PermissionDef → List PermissionDef
upsert_permission rows d =
    if any (λ p. same_text p.code d.code) rows
    then update_where (λ p. same_text p.code d.code) (λ _. d) rows
    else rows ++ d ∷ []

unfoldable pub upsert_catalog : List PermissionDef → List PermissionDef → List PermissionDef
upsert_catalog rows [] = rows
upsert_catalog rows (d ∷ ds) = upsert_catalog (upsert_permission rows d) ds

-- The defaults of a role that has no row.
unfoldable pub seed_role : List RolePermission → Role → List RolePermission
seed_role rows role =
    if any (λ r. same_role r.role role) rows
    then rows
    else rows ++ map (role_row role) (default_permissions_for_role role)

unfoldable pub seed_roles : List RolePermission → List RolePermission
seed_roles rows = seed_role (seed_role (seed_role rows super_user) admin) receptionist

abbrev pub is_catalogued : RolePermission → Bool
is_catalogued r = mem r.permission_code all_codes

unfoldable pub seed : PermissionDb → PermissionDb
seed db = record db {
  permissions = upsert_catalog db.permissions permission_catalog;
  role_permissions = seed_roles (filter is_catalogued db.role_permissions);
}
