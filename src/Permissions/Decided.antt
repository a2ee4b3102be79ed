-- ===== src/Permissions/Decided.antt =====
-- The overrides of a user against the permissions of the role.
use msk_back.Base.{
  ℕ, String, ◌≡◌, refl, ap, subst, ◌∙◌, inl, inr, Bool, true, false, not, ◌&&◌, ◌||◌, List, [], ◌∷◌,
  ◌++◌, arith, if◌then◌else◌, Bool-cases, filter,
}
use msk_back.Base.Text.{same_text}
use text.Mathlib.TextEquality
use msk_back.Permissions.Catalog.{Role, mem}
use msk_back.Permissions.{
  Override, PermissionDb, list_role_permissions, set_add, set_delete, set_from, apply_overrides,
  is_of, effective_permissions,
}

same_text_eq : (s t : String) → same_text s t ≡ true → s ≡ t
same_text_eq s t e = (TextEquality.eq_iff s t).0 e

mem-append : (c : String) (xs ys : List String) → mem c (xs ++ ys) ≡ (mem c xs || mem c ys)
mem-append c [] ys = refl
mem-append c (x ∷ xs) ys = elim (Bool-cases (same_text x c)) [
  | inl hit ↦ ground arith
  | inr miss ↦ ground (arith, mem-append c xs ys)
]

mem-set_add : (c d : String) (s : List String) → mem c (set_add d s) ≡ (same_text d c || mem c s)
unfolding set_add
mem-set_add c d s = elim (Bool-cases (mem d s)) [
  | inl there ↦ elim (Bool-cases (same_text d c)) [
    | inl same ↦
        let e : d ≡ c = same_text_eq d c same in
        let there' : mem c s ≡ true = subst (λ x. mem x s ≡ true) e there in ground arith
    | inr differ ↦ ground arith
  ]
  | inr away ↦ ground (arith, mem-append c s (d ∷ []))
]

mem-set_delete :
    (c d : String) (s : List String) → mem c (set_delete d s) ≡ (not (same_text d c) && mem c s)
unfolding set_delete
mem-set_delete c d [] = ground arith
mem-set_delete c d (x ∷ s) = elim (Bool-cases (same_text x d)) [
  | inl gone ↦
      let e : x ≡ d = same_text_eq x d gone in
      let e' : same_text x c ≡ same_text d c = ap (λ y. same_text y c) e in
      ground (arith, mem-set_delete c d s)
  | inr kept ↦ elim (Bool-cases (same_text d c)) [
    | inl same ↦
        let e : d ≡ c = same_text_eq d c same in
        let e' : same_text x c ≡ false = subst (λ y. same_text x y ≡ false) e kept in
        ground (arith, mem-set_delete c d s)
    | inr differ ↦ ground (arith, mem-set_delete c d s)
  ]
]

pub mem-set_from : (c : String) (cs s : List String) → mem c (set_from cs s) ≡ (mem c cs || mem c s)
unfolding set_from
mem-set_from c [] s = refl
mem-set_from c (d ∷ cs) s = elim (Bool-cases (same_text d c)) [
  | inl hit ↦ ground (arith, mem-set_from c cs (set_add d s), mem-set_add c d s)
  | inr miss ↦ ground (arith, mem-set_from c cs (set_add d s), mem-set_add c d s)
]

-- The last of the overrides for the code, and what was there where none is for it.
abbrev pub decided : String → List Override → Bool → Bool
decided code [] base = base
decided code (o ∷ os) base =
    decided code os (if same_text o.permission_code code then o.granted else base)

mem-apply_overrides :
    (c : String) (os : List Override) (s : List String)
    → mem c (apply_overrides os s) ≡ decided c os (mem c s)
unfolding apply_overrides
mem-apply_overrides c [] s = refl
mem-apply_overrides c (o ∷ os) s = elim (Bool-cases o.granted) [
  | inl granted ↦ elim (Bool-cases (same_text o.permission_code c)) [
    | inl same ↦ ground (
      arith,
      mem-apply_overrides c os (set_add o.permission_code s),
      mem-set_add c o.permission_code s,
    )
    | inr differ ↦ ground (
      arith,
      mem-apply_overrides c os (set_add o.permission_code s),
      mem-set_add c o.permission_code s,
    )
  ]
  | inr revoked ↦ elim (Bool-cases (same_text o.permission_code c)) [
    | inl same ↦ ground (
      arith,
      mem-apply_overrides c os (set_delete o.permission_code s),
      mem-set_delete c o.permission_code s,
    )
    | inr differ ↦ ground (
      arith,
      mem-apply_overrides c os (set_delete o.permission_code s),
      mem-set_delete c o.permission_code s,
    )
  ]
]

or_false : (b : Bool) → (b || false) ≡ b
or_false true = refl
or_false false = refl

-- A user has a permission as the last of the user's overrides for it says, and as the role has it
-- where there is none.
pub effective_permissions-decided :
    (user_id : ℕ) (role : Role) (code : String) (db : PermissionDb)
    → mem code (effective_permissions user_id role db)
      ≡ decided code
          (filter (is_of user_id) db.overrides)
          (mem code (list_role_permissions role db))
unfolding effective_permissions
effective_permissions-decided user_id role code db =
    mem-apply_overrides code (filter (is_of user_id) db.overrides)
      (set_from (list_role_permissions role db) [])
    ∙ ap (decided code (filter (is_of user_id) db.overrides)) (
        mem-set_from code (list_role_permissions role db) []
        ∙ or_false (mem code (list_role_permissions role db)))
