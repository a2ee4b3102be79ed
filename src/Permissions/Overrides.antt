-- ===== src/Permissions/Overrides.antt =====
-- A user's permissions after an override is set.
use msk_back.Base.{
  ℕ, String, ◌≡◌, refl, sym, ap, ◌∙◌, ◌⊎◌, inl, inr, Bool, true, false, ◌&&◌, ◌||◌, List, [], ◌∷◌,
  ◌++◌, arith, ◌==◌, if◌then◌else◌, ==_refl, Bool-cases, filter, any, update_where, delete_where,
}
use msk_back.Base.Action.{is_ok}
use msk_back.Base.Text.{same_text}
use msk_back.Permissions.{
  Override, PermissionDb, list_role_permissions, is_of, effective_permissions, OverrideMode, is_key,
  set_granted, upsert_override, may_override, write_override, set_user_override, grant, revoke,
  clear,
}
use msk_back.Permissions.Catalog.{Role, mem}
use msk_back.Permissions.Decided.{decided, effective_permissions-decided}
use text.Mathlib.TextPositions
use text.Mathlib.TextPositions
use text.Mathlib.TextPositions

-- What the override says of the permission, where it says anything.
abbrev pub outcome : OverrideMode → Bool → Bool
outcome grant base = true
outcome revoke base = false
outcome clear base = base

module _ (u : ℕ) (code : String) where
  decided-updated :
      (g : Bool) (os : List Override)
      → decided code (filter (is_of u) (update_where (is_key u code) (set_granted g) os)) g ≡ g
  decided-updated g [] = refl
  decided-updated g (o ∷ os) = elim (Bool-cases (is_of u o)) [
    | inl mine ↦ elim (Bool-cases (same_text o.permission_code code)) [
      | inl same ↦ ground (arith, decided-updated g os)
      | inr differ ↦ ground (arith, decided-updated g os)
    ]
    | inr theirs ↦ ground (arith, decided-updated g os)
  ]

  decided-there :
      (g base : Bool) (os : List Override)
      → any (is_key u code) os ≡ true
      → decided code (filter (is_of u) (update_where (is_key u code) (set_granted g) os)) base ≡ g
  decided-there g base [] h = cc
  decided-there g base (o ∷ os) h = elim (Bool-cases (is_of u o)) [
    | inl mine ↦ elim (Bool-cases (same_text o.permission_code code)) [
      | inl same ↦ ground (arith, decided-updated g os)
      | inr differ ↦ ground (arith, decided-there g base os)
    ]
    | inr theirs ↦ ground (arith, decided-there g base os)
  ]

  decided-appended :
      (g base : Bool) (os : List Override)
      → decided code
          (filter
            (is_of u)
            (os ++ record { user_id = u; permission_code = code; granted = g } ∷ []))
          base
        ≡ g
  decided-appended g base [] = ground (arith, ==_refl u, TextPositions.eq_refl code)
  decided-appended g base (o ∷ os) = elim (Bool-cases (is_of u o)) [
    | inl mine ↦ elim (Bool-cases (same_text o.permission_code code)) [
      | inl same ↦ ground (arith, decided-appended g o.granted os)
      | inr differ ↦ ground (arith, decided-appended g base os)
    ]
    | inr theirs ↦ ground (arith, decided-appended g base os)
  ]

  decided-upserted :
      (g base : Bool) (os : List Override)
      → decided code (filter (is_of u) (upsert_override u code g os)) base ≡ g
  unfolding upsert_override
  decided-upserted g base os = elim (Bool-cases (any (is_key u code) os)) [
    | inl there ↦ ground (arith, decided-there g base os)
    | inr away ↦ ground (arith, decided-appended g base os)
  ]

  decided-cleared :
      (base : Bool) (os : List Override)
      → decided code (filter (is_of u) (delete_where (is_key u code) os)) base ≡ base
  decided-cleared base [] = refl
  decided-cleared base (o ∷ os) = elim (Bool-cases (is_of u o)) [
    | inl mine ↦ elim (Bool-cases (same_text o.permission_code code)) [
      | inl same ↦ ground (arith, decided-cleared base os)
      | inr differ ↦ ground (arith, decided-cleared base os)
    ]
    | inr theirs ↦ ground (arith, decided-cleared base os)
  ]

-- The table with the override as the request wants it.
abbrev wanted : ℕ → String → OverrideMode → PermissionDb → PermissionDb
wanted user_id code grant db = record db {
  overrides = upsert_override user_id code true db.overrides;
}
wanted user_id code revoke db = record db {
  overrides = upsert_override user_id code false db.overrides;
}
wanted user_id code clear db = record db {
  overrides = delete_where (is_key user_id code) db.overrides;
}

wanted-effective :
    (user_id : ℕ) (role : Role) (code : String) (mode : OverrideMode) (db : PermissionDb)
    → mem code (effective_permissions user_id role (wanted user_id code mode db))
      ≡ outcome mode (mem code (list_role_permissions role db))
unfolding list_role_permissions
wanted-effective user_id role code grant db =
    effective_permissions-decided user_id role code (wanted user_id code grant db)
    ∙ decided-upserted user_id code true _ db.overrides
wanted-effective user_id role code revoke db =
    effective_permissions-decided user_id role code (wanted user_id code revoke db)
    ∙ decided-upserted user_id code false _ db.overrides
wanted-effective user_id role code clear db =
    effective_permissions-decided user_id role code (wanted user_id code clear db)
    ∙ decided-cleared user_id code _ db.overrides

abbrev pub is_clear : OverrideMode → Bool
is_clear clear = true
is_clear _ = false

set_user_override-cases :
    (user_id : ℕ) (code : String) (mode : OverrideMode) (db : PermissionDb)
    → let run = set_user_override user_id code mode db in
      ((is_ok run.0 ≡ true)
        × ((is_clear mode || may_override user_id code db) ≡ true)
        × (run.1 ≡ wanted user_id code mode db))
      ⊎ ((is_ok run.0 ≡ false)
          × ((is_clear mode || may_override user_id code db) ≡ false)
          × (run.1 ≡ db))
unfolding set_user_override write_override
set_user_override-cases user_id code clear db = inl (refl, refl, refl)
set_user_override-cases user_id code grant db = elim (Bool-cases (may_override user_id code db)) [
  | inl may ↦ inl (ground arith, ground arith, ground arith)
  | inr not_ ↦ inr (ground arith, ground arith, ground arith)
]
set_user_override-cases user_id code revoke db = elim (Bool-cases (may_override user_id code db)) [
  | inl may ↦ inl (ground arith, ground arith, ground arith)
  | inr not_ ↦ inr (ground arith, ground arith, ground arith)
]

-- To set an override is accepted exactly when it is a clearing, or the user has one for the
-- permission, or the user and the permission are of their tables. Where it is accepted, the user has
-- the permission if it is granted, has it not if it is revoked, and has it as the role does if the
-- override is cleared, whatever the overrides were; where it is refused, the
-- user has of it what it had.
pub set_user_override-effective :
    (user_id : ℕ) (role : Role) (code : String) (mode : OverrideMode) (db : PermissionDb)
    → let run = set_user_override user_id code mode db in
      (is_ok run.0 ≡ (
        is_clear mode
        || (any (λ o. o.user_id == user_id && same_text o.permission_code code) db.overrides
            || any (λ u. u == user_id) db.users
              && any (λ p. same_text p.code code) db.permissions)))
      × (mem code (effective_permissions user_id role run.1) ≡ (
          if is_ok run.0
          then outcome mode (mem code (list_role_permissions role db))
          else mem code (effective_permissions user_id role db)))
set_user_override-effective user_id role code mode db =
    elim (set_user_override-cases user_id code mode db) [
      | inl (fine, may, done) ↦ (
        fine ∙ sym may,
        rw fine (
            ap (λ d. mem code (effective_permissions user_id role d)) done
            ∙ wanted-effective user_id role code mode db),
      )
      | inr (refused, not_, same) ↦ (
        refused ∙ sym not_,
        rw refused (ap (λ d. mem code (effective_permissions user_id role d)) same),
      )
    ]
