-- ===== src/Permissions/Seeded.antt =====
-- The seed that runs at every start, on the roles' permissions.
use msk_back.Base.{
  String, ◌≡◌, refl, sym, ap, subst, ◌∙◌, inl, inr, Bool, true, false, ◌&&◌, ◌||◌, List, [], ◌∷◌,
  ◌++◌, map, arith, ◌==◌, ==_iff, ==_refl, Bool-cases, All, filter, any, all, All-append,
  All-of_all, filter-append,
}
use msk_back.Permissions.Catalog.{
  Role, mem, all_codes, default_permissions_for_role, web_guest, receptionist, staff, supervisor,
  supplier, admin, super_user,
}
use msk_back.Permissions.{
  RolePermission, PermissionDb, role_no, same_role, list_role_permissions, role_row, seed_role,
  seed_roles, is_catalogued, seed,
}

any_code : List String → Bool
any_code [] = false
any_code (_ ∷ _) = true

any-role_rows :
    (r s : Role) (cs : List String)
    → any (λ x. same_role x.role s) (map (role_row r) cs) ≡ (any_code cs && same_role r s)
unfolding any_code
any-role_rows r s [] = refl
any-role_rows r s (c ∷ cs) = elim (Bool-cases (same_role r s)) [
  | inl same ↦ ground arith
  | inr differ ↦ ground (arith, any-role_rows r s cs)
]

-- The role has a row.
abbrev pub has_rows : Role → List RolePermission → Bool
has_rows role rows = any (λ r. same_role r.role role) rows

has_rows-append :
    (role : Role) (xs ys : List RolePermission)
    → has_rows role (xs ++ ys) ≡ (has_rows role xs || has_rows role ys)
has_rows-append role [] ys = refl
has_rows-append role (x ∷ xs) ys = elim (Bool-cases (same_role x.role role)) [
  | inl hit ↦ ground arith
  | inr miss ↦ ground (arith, has_rows-append role xs ys)
]

-- Only these three roles are seeded, and each has defaults.
seed_role-has_rows :
    (rows : List RolePermission) (role : Role)
    → any_code (default_permissions_for_role role) ≡ true
    → has_rows role (seed_role rows role) ≡ true
unfolding seed_role
seed_role-has_rows rows role some_default = elim (Bool-cases (has_rows role rows)) [
  | inl there ↦ ground arith
  | inr away ↦ ground (
    arith,
    ==_refl (role_no role),
    has_rows-append role rows (map (role_row role) (default_permissions_for_role role)),
    any-role_rows role role (default_permissions_for_role role),
  )
]

seed_role-keeps :
    (rows : List RolePermission) (role s : Role)
    → has_rows s rows ≡ true
    → has_rows s (seed_role rows role) ≡ true
unfolding seed_role
seed_role-keeps rows role s there = elim (Bool-cases (has_rows role rows)) [
  | inl there' ↦ ground arith
  | inr away ↦
      ground
        (arith, has_rows-append s rows (map (role_row role) (default_permissions_for_role role)))
]

seed_role-idle :
    (rows : List RolePermission) (role : Role)
    → has_rows role rows ≡ true
    → seed_role rows role ≡ rows
unfolding seed_role
seed_role-idle rows role there = ground arith

has_defaults :
    (any_code (default_permissions_for_role super_user) ≡ true)
    × (any_code (default_permissions_for_role admin) ≡ true)
    × (any_code (default_permissions_for_role receptionist) ≡ true)
unfolding any_code default_permissions_for_role
has_defaults = (refl, refl, refl)

seed_role-empty :
    (rows : List RolePermission) (role : Role)
    → has_rows role rows ≡ false
    → seed_role rows role ≡ rows ++ map (role_row role) (default_permissions_for_role role)
unfolding seed_role
seed_role-empty rows role away = ground arith

seed_roles-twice : (rows : List RolePermission) → seed_roles (seed_roles rows) ≡ seed_roles rows
unfolding seed_roles
seed_roles-twice rows =
    let a = seed_role rows super_user in
    let b = seed_role a admin in
    let c = seed_role b receptionist in
    let h₁ : has_rows super_user c ≡ true =
      seed_role-keeps b receptionist super_user
        (seed_role-keeps a admin super_user (seed_role-has_rows rows super_user has_defaults.0)) in
    let h₂ : has_rows admin c ≡ true =
      seed_role-keeps b receptionist admin (seed_role-has_rows a admin has_defaults.1) in
    let h₃ : has_rows receptionist c ≡ true = seed_role-has_rows b receptionist has_defaults.2 in
    ground (
      arith,
      seed_role-idle c super_user h₁,
      seed_role-idle c admin h₂,
      seed_role-idle c receptionist h₃,
    )

-- Every default is in the catalog.
pub default_permissions_for_role-catalog :
    (role : Role) → all (λ c. mem c all_codes) (default_permissions_for_role role) ≡ true
unfolding default_permissions_for_role
default_permissions_for_role-catalog web_guest = refl
default_permissions_for_role-catalog receptionist = refl
default_permissions_for_role-catalog staff = refl
default_permissions_for_role-catalog supervisor = refl
default_permissions_for_role-catalog supplier = refl
default_permissions_for_role-catalog admin = refl
default_permissions_for_role-catalog super_user = refl

All-role_rows :
    (role : Role) (cs : List String)
    → All (λ c. mem c all_codes ≡ true) cs
    → All (λ r. is_catalogued r ≡ true) (map (role_row role) cs)
All-role_rows role [] h = tt
All-role_rows role (c ∷ cs) h = (h.0, All-role_rows role cs h.1)

seed_role-catalogued :
    (rows : List RolePermission) (role : Role)
    → All (λ r. is_catalogued r ≡ true) rows
    → All (λ r. is_catalogued r ≡ true) (seed_role rows role)
seed_role-catalogued rows role h = elim (Bool-cases (has_rows role rows)) [
  | inl there ↦ subst (All (λ r. is_catalogued r ≡ true)) (sym (seed_role-idle rows role there)) h
  | inr away ↦ subst (All (λ r. is_catalogued r ≡ true)) (sym (seed_role-empty rows role away)) (
      All-append (λ r. is_catalogued r ≡ true) rows
        (map (role_row role) (default_permissions_for_role role)) h
        (All-role_rows role (default_permissions_for_role role) (
          All-of_all (λ c. mem c all_codes) (default_permissions_for_role role)
            (default_permissions_for_role-catalog role))))
]

seed_roles-catalogued :
    (rows : List RolePermission)
    → All (λ r. is_catalogued r ≡ true) rows
    → All (λ r. is_catalogued r ≡ true) (seed_roles rows)
unfolding seed_roles
seed_roles-catalogued rows h =
    seed_role-catalogued _ receptionist
      (seed_role-catalogued _ admin (seed_role-catalogued rows super_user h))

filter_whole :
    (rows : List RolePermission)
    → All (λ r. is_catalogued r ≡ true) rows
    → filter is_catalogued rows ≡ rows
filter_whole [] h = refl
filter_whole (r ∷ rows) h = rw (h.0, filter_whole rows h.1)

filter_catalogued :
    (rows : List RolePermission) → All (λ r. is_catalogued r ≡ true) (filter is_catalogued rows)
filter_catalogued [] = tt
filter_catalogued (r ∷ rows) = elim (Bool-cases (is_catalogued r)) [
  | inl kept ↦ rw kept (kept, filter_catalogued rows)
  | inr dropped ↦ rw dropped (filter_catalogued rows)
]

-- The seed is idempotent on the roles' permissions: a second seed leaves them as the first did.
pub seed-twice :
    (db : PermissionDb) → (seed (seed db)).role_permissions ≡ (seed db).role_permissions
unfolding seed
seed-twice db =
    let rows = filter is_catalogued db.role_permissions in
    let whole : All (λ r. is_catalogued r ≡ true) (seed_roles rows) =
      seed_roles-catalogued rows (filter_catalogued db.role_permissions) in
    ap seed_roles (filter_whole (seed_roles rows) whole) ∙ seed_roles-twice rows

-- The codes that the rows give a role.
abbrev codes_of : Role → List RolePermission → List String
codes_of role rows = map (λ r. r.permission_code) (filter (λ r. same_role r.role role) rows)

filter-role_rows :
    (role s : Role) (cs : List String)
    → same_role s role ≡ false
    → filter (λ r. same_role r.role role) (map (role_row s) cs) ≡ []
filter-role_rows role s [] h = refl
filter-role_rows role s (c ∷ cs) h = rw h (filter-role_rows role s cs h)

append-nil : (rows : List RolePermission) → rows ++ [] ≡ rows
append-nil [] = refl
append-nil (r ∷ rows) = ap (λ x. r ∷ x) (append-nil rows)

seed_role-codes_of :
    (rows : List RolePermission) (s role : Role)
    → has_rows role rows ≡ true
    → codes_of role (seed_role rows s) ≡ codes_of role rows
seed_role-codes_of rows s role there = elim (Bool-cases (has_rows s rows)) [
  | inl there' ↦ ap (codes_of role) (seed_role-idle rows s there')
  | inr away ↦ elim (Bool-cases (same_role s role)) [
    | inl same ↦
        let e : role_no s ≡ role_no role = (==_iff (role_no s) (role_no role)).0 same in
        let there' : has_rows s rows ≡ true =
          subst (λ n. any (λ r. role_no r.role == n) rows ≡ true) (sym e) there in
        cc
    | inr differ ↦
        ap (codes_of role) (seed_role-empty rows s away)
        ∙ ap (map (λ r. r.permission_code)) (
            filter-append (λ r. same_role r.role role) rows
              (map (role_row s) (default_permissions_for_role s))
            ∙ ap (λ xs. filter (λ r. same_role r.role role) rows ++ xs)
                (filter-role_rows role s (default_permissions_for_role s) differ)
            ∙ append-nil _)
  ]
]

-- A role that has a row whose code is in the catalog has, after the seed, exactly its rows of before
-- whose codes are in the catalog: the seed gives an edited role nothing back.
pub seed-keeps_edits :
    (role : Role) (db : PermissionDb)
    → has_rows role (filter is_catalogued db.role_permissions) ≡ true
    → list_role_permissions role (seed db)
      ≡ list_role_permissions role
          (record db { role_permissions = filter is_catalogued db.role_permissions })
unfolding seed seed_roles list_role_permissions
seed-keeps_edits role db edited =
    let rows = filter is_catalogued db.role_permissions in
    let a = seed_role rows super_user in
    let b = seed_role a admin in
    seed_role-codes_of b receptionist role
      (seed_role-keeps a admin role (seed_role-keeps rows super_user role edited))
    ∙ seed_role-codes_of a admin role (seed_role-keeps rows super_user role edited)
    ∙ seed_role-codes_of rows super_user role edited
