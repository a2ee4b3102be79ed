-- ===== src/Permissions/Matrix.antt =====
-- What saving a row of the role matrix changes.
use msk_back.Base.{
  String, ◌≡◌, refl, inl, inr, not, ◌&&◌, ◌||◌, List, [], ◌∷◌, ◌++◌, map, arith, if◌then◌else◌,
  Bool-cases, filter, any, all, delete_where,
}
use msk_back.Base.Action.{is_ok}
use msk_back.Base.Text.{same_text}
use msk_back.Permissions.{
  RolePermission, PermissionDb, same_role, list_role_permissions, set_from, role_row, is_known,
  write_role, set_role_permissions,
}
use msk_back.Permissions.Catalog.{Role, mem}
use msk_back.Permissions.Decided.{mem-set_from}

codes_in : Role → List RolePermission → List String
codes_in role rows = map (λ r. r.permission_code) (filter (λ r. same_role r.role role) rows)

mem-codes_in-append :
    (c : String) (role : Role) (xs ys : List RolePermission)
    → mem c (codes_in role (xs ++ ys)) ≡ (mem c (codes_in role xs) || mem c (codes_in role ys))
unfolding codes_in
mem-codes_in-append c role [] ys = refl
mem-codes_in-append c role (x ∷ xs) ys = elim (Bool-cases (same_role x.role role)) [
  | inl here ↦ ground (arith, mem-codes_in-append c role xs ys)
  | inr there ↦ ground (arith, mem-codes_in-append c role xs ys)
]

mem-codes_in-role_rows :
    (c : String) (role s : Role) (cs : List String)
    → mem c (codes_in role (map (role_row s) cs)) ≡ (same_role s role && mem c cs)
unfolding codes_in
mem-codes_in-role_rows c role s [] = ground arith
mem-codes_in-role_rows c role s (d ∷ cs) = elim (Bool-cases (same_role s role)) [
  | inl same ↦ ground (arith, mem-codes_in-role_rows c role s cs)
  | inr differ ↦ ground (arith, mem-codes_in-role_rows c role s cs)
]

mem-codes_in-deleted :
    (c : String) (role s : Role) (rows : List RolePermission)
    → mem c (codes_in role (delete_where (λ r. same_role r.role s) rows))
      ≡ (not (same_role s role) && mem c (codes_in role rows))
unfolding codes_in
mem-codes_in-deleted c role s [] = ground arith
mem-codes_in-deleted c role s (r ∷ rows) = elim (Bool-cases (same_role r.role s)) [
  | inl gone ↦ ground (arith, mem-codes_in-deleted c role s rows)
  | inr kept ↦ elim (Bool-cases (same_role s role)) [
    | inl same ↦ ground (arith, mem-codes_in-deleted c role s rows)
    | inr differ ↦ elim (Bool-cases (same_role r.role role)) [
      | inl here ↦ ground (arith, mem-codes_in-deleted c role s rows)
      | inr there ↦ ground (arith, mem-codes_in-deleted c role s rows)
    ]
  ]
]

-- The list after the rows of a role are replaced.
list_role_permissions-write_role :
    (role s : Role) (code : String) (codes : List String) (db : PermissionDb)
    → mem code (list_role_permissions role (write_role s (set_from codes []) db))
      ≡ (if same_role s role then mem code codes else mem code (list_role_permissions role db))
unfolding list_role_permissions codes_in
list_role_permissions-write_role role s code codes db =
    let old = delete_where (λ r. same_role r.role s) db.role_permissions in
    ground (
      arith,
      mem-codes_in-append code role old (map (role_row s) (set_from codes [])),
      mem-codes_in-deleted code role s db.role_permissions,
      mem-codes_in-role_rows code role s (set_from codes []),
      mem-set_from code codes [],
    )

-- To set a role's permissions is accepted exactly when each of the codes is of a permission of the
-- table. Where it is accepted, the role has a permission exactly when it is among the codes given,
-- and every other role has what it had; where it is refused, every role has what it had.
pub list_role_permissions-set_role_permissions :
    (role s : Role) (code : String) (codes : List String) (db : PermissionDb)
    → (is_ok (set_role_permissions s codes db).0
        ≡ all (λ c. any (λ p. same_text p.code c) db.permissions) (set_from codes []))
      × (mem code (list_role_permissions role (set_role_permissions s codes db).1) ≡ (
          if is_ok (set_role_permissions s codes db).0 && same_role s role
          then mem code codes
          else mem code (list_role_permissions role db)))
unfolding set_role_permissions
list_role_permissions-set_role_permissions role s code codes db =
    elim (Bool-cases (all (is_known db) (set_from codes []))) [
      | inl known ↦
          (ground arith, ground (arith, list_role_permissions-write_role role s code codes db))
      | inr unknown ↦ (ground arith, ground arith)
    ]
