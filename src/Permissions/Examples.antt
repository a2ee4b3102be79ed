-- ===== src/Permissions/Examples.antt =====
-- A receptionist with two overrides, and the theorems of this part on the tables.
use msk_back.Base.{
  String, ◌≡◌, refl, ◌↔◌, Bool, true, false, ◌||◌, none, some, [], ◌∷◌, get_or, filter, all,
}
use msk_back.Base.Action.{is_ok, ok}
use msk_back.Permissions.{
  Override, PermissionDb, list_role_permissions, is_of, effective_permissions, role_row,
  set_role_permissions, set_user_override, seed, revoke, write_override, set_from, set_add,
}
use msk_back.Permissions.Catalog.{PermissionDef, mem, receptionist}
use msk_back.Permissions.Decided.{decided, effective_permissions-decided}
use msk_back.Permissions.Overrides.{set_user_override-effective}
use msk_back.Permissions.Matrix.{list_role_permissions-set_role_permissions}
use msk_back.Permissions.Seeded.{seed-twice}
use msk_back.Permissions.Guard.{AuthedUser, is_super, can_activate, can_activate_iff}

abbrev an_override : String → Bool → Override
an_override code granted = record { user_id = 4; permission_code = code; granted = granted }

abbrev a_permission : String → PermissionDef
a_permission code = record {
  code = code;
  group = "Test";
  label = code;
  ordering = 1;
  description = none;
}

abbrev edited_matrix : PermissionDb
edited_matrix = record {
  permissions = a_permission "rooms.read" ∷ a_permission "finance.read" ∷ [];
  role_permissions =
      role_row receptionist "bookings.read"
      ∷ role_row receptionist "rooms.read"
      ∷ role_row receptionist "retired.code"
      ∷ [];
  overrides = an_override "rooms.read" false ∷ an_override "finance.read" true ∷ [];
  users = 4 ∷ 5 ∷ [];
}

effective_permissions-decided_example :
    mem "rooms.read" (effective_permissions 4 receptionist edited_matrix)
    ≡ decided "rooms.read"
        (filter (is_of 4) edited_matrix.overrides)
        (mem "rooms.read" (list_role_permissions receptionist edited_matrix))
effective_permissions-decided_example =
    effective_permissions-decided 4 receptionist "rooms.read" edited_matrix

-- The user 5 has no override yet.
set_user_override-effective_example :
    (is_ok (set_user_override 5 "rooms.read" revoke edited_matrix).0 ≡ true)
    × (mem "rooms.read" (
          effective_permissions 5 receptionist
            (set_user_override 5 "rooms.read" revoke edited_matrix).1)
        ≡ false)
unfolding set_user_override write_override
set_user_override-effective_example =
    set_user_override-effective 5 receptionist "rooms.read" revoke edited_matrix

abbrev desk : AuthedUser
desk = record { id = some 4; role = some receptionist; primary_role = none }

can_activate_iff_example : (can_activate ("rooms.read" ∷ []) desk edited_matrix ≡ ok true) ↔ (
    (is_super desk.role
      || is_super desk.primary_role
      || all
          (λ c.
            mem c (effective_permissions 4 (get_or desk.primary_role receptionist) edited_matrix))
          ("rooms.read" ∷ []))
    ≡ true)
can_activate_iff_example =
    can_activate_iff ("rooms.read" ∷ []) desk edited_matrix 4 receptionist refl refl

seed-twice_example :
    (seed (seed edited_matrix)).role_permissions ≡ (seed edited_matrix).role_permissions
seed-twice_example = seed-twice edited_matrix

list_role_permissions-set_role_permissions_example :
    (is_ok
        (set_role_permissions receptionist ("finance.read" ∷ "finance.read" ∷ []) edited_matrix).0
      ≡ true)
    × (mem "finance.read" (
          list_role_permissions receptionist
            (set_role_permissions receptionist
              ("finance.read" ∷ "finance.read" ∷ [])
              edited_matrix).1)
        ≡ true)
unfolding set_from set_role_permissions set_add
list_role_permissions-set_role_permissions_example =
    list_role_permissions-set_role_permissions receptionist receptionist "finance.read"
      ("finance.read" ∷ "finance.read" ∷ []) edited_matrix
