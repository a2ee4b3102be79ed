-- ===== src/Auth/Accounts/Replaced.antt =====
-- The credentials after a change or a reset of a secret.
use msk_back.Base.{
  ℕ, String, ◌≡◌, sym, ap, subst, ◌∙◌, inl, inr, Bool, true, false, not, ◌&&◌, ◌||◌, List, [], ◌∷◌,
  ◌++◌, arith, ltb, leb, ◌==◌, if◌then◌else◌, ==_refl, Bool-cases, Option-cases, length, filter,
  any, delete_where, filter-append, filter-delete_where, filter-delete_where_same, append_nil,
}
use msk_back.Base.Action.{is_ok, Action, pure, gets, or_throw, ◌>>=◌, ◌>>◌, internal_error, ok}
use msk_back.Base.Text.{is_blank, same_text}
use msk_back.Auth.Accounts.{Provider, Credential, AuthDb, Env, Fresh, user_at, new_credential}
use msk_back.Auth.Accounts.Shapes.{text_length, looks_like_pin}
use msk_back.Auth.Accounts.Secrets.{
  provider_for, check_new_secret, has_user, replace_credentials, change_secret,
}

abbrev pub others : ℕ → Credential → Bool
others user_id c = not (has_user user_id c)

-- What a change of the secret leaves: one credential of the user, of the new secret and its kind,
-- and those of the others as they were.
unfoldable pub Replaced : Env → Fresh → ℕ → String → AuthDb → AuthDb → Type 0
Replaced env new user_id secret before after =
    (filter (has_user user_id) after.credentials
      ≡ new_credential env new user_id (provider_for secret) (env.hash_of secret) ∷ [])
    × (filter (others user_id) after.credentials ≡ filter (others user_id) before.credentials)

-- What an accepted change needs: a credential of the user that the current secret opens, and a new
-- secret that differs and is a PIN of four to six digits or a password of 8 to 200 characters.
unfoldable pub MayChange : Env → ℕ → String → String → AuthDb → Type 0
MayChange env user_id current secret db =
    (any (λ c. env.matches c.secret_hash current) (filter (has_user user_id) db.credentials) ≡ true)
    × (same_text current secret ≡ false)
    × ((looks_like_pin secret || leb 8 (text_length secret) && leb (text_length secret) 200) ≡ true)

replaced :
    (env : Env) (new : Fresh) (user_id : ℕ) (secret : String) (db : AuthDb)
    → Replaced env new user_id secret db (replace_credentials env new user_id secret db).1
unfolding Replaced replace_credentials
replaced env new user_id secret db =
    let c : Credential =
      new_credential env new user_id (provider_for secret) (env.hash_of secret) in
    let kept : List Credential = delete_where (has_user user_id) db.credentials in
    let same : filter (others user_id) (kept ++ c ∷ []) ≡ filter (others user_id) kept = ground (
      arith,
      ==_refl user_id,
      filter-append (others user_id) kept (c ∷ []),
      append_nil (filter (others user_id) kept),
    ) in
    (
      ground (
        arith,
        ==_refl user_id,
        filter-append (has_user user_id) kept (c ∷ []),
        filter-delete_where_same (has_user user_id) db.credentials,
      ),
      same
          ∙ filter-delete_where (has_user user_id) (others user_id) db.credentials
              (λ x h. ground arith),
    )

-- The tests of `changeSecret`, in one.
abbrev is_shaped : String → Bool
is_shaped secret =
    looks_like_pin secret || leb 8 (text_length secret) && leb (text_length secret) 200

abbrev may_change : Env → ℕ → String → String → AuthDb → Bool
may_change env user_id current secret db =
    let mine = filter (has_user user_id) db.credentials in
    not (is_blank current || is_blank secret)
    && (not (same_text current secret)
        && (not (length mine == 0) && any (λ c. env.matches c.secret_hash current) mine))

check_new_secret-ok :
    (secret : String) (db : AuthDb)
    → check_new_secret secret db
      ≡ (if is_shaped secret then ok tt else (check_new_secret secret db).0, db)
unfolding check_new_secret
check_new_secret-ok secret db = elim (Bool-cases (is_shaped secret)) [
  | inl shaped ↦ ground arith
  | inr short ↦ ground arith
]

check_new_secret-err :
    (secret : String) (db : AuthDb)
    → is_shaped secret ≡ false
    → is_ok (check_new_secret secret db).0 ≡ false
unfolding check_new_secret
check_new_secret-err secret db h =
    elim (Bool-cases (not (looks_like_pin secret) && ltb (text_length secret) 8)) [
      | inl short ↦ ground arith
      | inr long ↦ ground arith
    ]

change_secret-refused :
    (env : Env) (new : Fresh) (user_id : ℕ) (current secret : String) (db : AuthDb)
    → may_change env user_id current secret db ≡ false
    → is_ok (change_secret env new user_id current secret db).0 ≡ false
unfolding change_secret
change_secret-refused env new user_id current secret db h =
    elim (Bool-cases (is_blank current || is_blank secret)) [
      | inl empty ↦ ground arith
      | inr full ↦ elim (Bool-cases (same_text current secret)) [
        | inl same ↦ ground arith
        | inr differs ↦ elim (Bool-cases (length (filter (has_user user_id) db.credentials) == 0)) [
          | inl bare ↦ ground arith
          | inr some_there ↦ ground arith
        ]
      ]
    ]

-- The rest of `changeSecret`, once the current secret was found.
abbrev finish : Env → Fresh → ℕ → String → Action AuthDb Provider
finish env new user_id secret = do
  check_new_secret secret
  or_throw (← gets (user_at user_id)) (internal_error "Record to update not found.")
  replace_credentials env new user_id secret
  pure (provider_for secret)

change_secret-finish :
    (env : Env) (new : Fresh) (user_id : ℕ) (current secret : String) (db : AuthDb)
    → may_change env user_id current secret db ≡ true
    → change_secret env new user_id current secret db ≡ finish env new user_id secret db
unfolding change_secret
change_secret-finish env new user_id current secret db h = ground arith

finish-Replaced :
    (env : Env) (new : Fresh) (user_id : ℕ) (secret : String) (db after : AuthDb)
    (provider : Provider)
    → finish env new user_id secret db ≡ (ok provider, after)
    → (provider ≡ provider_for secret)
      × (is_shaped secret ≡ true)
      × Replaced env new user_id secret db after
finish-Replaced env new user_id secret db after provider h = elim (Bool-cases (is_shaped secret)) [
  | inr short ↦ ground (arith, check_new_secret-err secret db short)
  | inl shaped ↦ elim (Option-cases (user_at user_id db)) [
    | inl missing ↦ ground (arith, check_new_secret-ok secret db)
    | inr (u, found) ↦
        let changed : finish env new user_id secret db
            ≡ (ok (provider_for secret), (replace_credentials env new user_id secret db).1) =
          ground (arith, check_new_secret-ok secret db) in
        let wrote : after ≡ (replace_credentials env new user_id secret db).1 =
          ap (λ o. o.1) (sym h ∙ changed) in
        let named : ok provider ≡ ok (provider_for secret) = ap (λ o. o.0) (sym h ∙ changed) in
        (
          ground arith,
          shaped,
          subst (Replaced env new user_id secret db) (sym wrote)
              (replaced env new user_id secret db),
        )
  ]
]

-- A change of the secret that is accepted had a current secret that opens a credential of the user,
-- and a new one that is different and well formed. It leaves the user exactly one credential, which
-- is of the new secret and of the provider that the shape of the new secret gives, and leaves the
-- credentials of all others as they were.
pub change_secret-Replaced :
    (env : Env) (new : Fresh) (user_id : ℕ) (current secret : String) (db after : AuthDb)
    (provider : Provider)
    → change_secret env new user_id current secret db ≡ (ok provider, after)
    → (provider ≡ provider_for secret)
      × MayChange env user_id current secret db
      × Replaced env new user_id secret db after
unfolding MayChange
change_secret-Replaced env new user_id current secret db after provider h =
    elim (Bool-cases (may_change env user_id current secret db)) [
      | inr out ↦ ground (arith, change_secret-refused env new user_id current secret db out)
      | inl may ↦
          let (named, shaped, replaced') =
            finish-Replaced env new user_id secret db after provider
              (sym (change_secret-finish env new user_id current secret db may) ∙ h) in
          (named, (ground arith, ground arith, shaped), replaced')
    ]
