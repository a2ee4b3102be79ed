-- ===== src/Auth/Accounts/Linked.antt =====
-- The credentials that a sign-in with Google or Apple leaves.
use msk_back.Base.{
  ℕ, String, ◌≡◌, ap, inl, inr, Bool, true, false, ◌&&◌, ◌||◌, Option, none, some, List, [], ◌∷◌,
  ◌++◌, arith, ◌==◌, ==_iff, Bool-cases, Option-cases, All, find?, filter, any, update_where,
  find?_sound, filter-append, In-find?, filter-update_where, append_nil,
}
use msk_back.Auth.Tokens.{issue}
use msk_back.Auth.Accounts.{
  Provider, same_kind, User, Credential, AuthDb, Env, Fresh, user_at, is_credential, credential_of,
  new_credential, set_hash, upsert_credential,
}
use msk_back.Auth.Accounts.SignIn.{is_guest}
use msk_back.Auth.Accounts.Secrets.{has_user}
use msk_back.Auth.Accounts.SignUp.{clashes, create_user}
use msk_back.Auth.Accounts.Oauth.{
  OauthProvider, provider_of, Identity, oauth_hash, linked_account, return_guest, oauth_email,
  is_live_guest, link_guest_account, new_oauth_guest, is_other_lane, create_oauth_guest,
  find_or_create_oauth, login_with_oauth,
}
use msk_back.Bookings.Tables.{app}

abbrev mine : ℕ → AuthDb → List Credential
mine user_id db = filter (has_user user_id) db.credentials

-- Two numbers that an equal third would join.
eq_false : (a b c : ℕ) → (a == b) ≡ false → (c == a) ≡ true → (c == b) ≡ false
eq_false a b c differ same = rw ((==_iff c a).0 same) differ

upsert_credential-others :
    (env : Env) (new : Fresh) (user_id v : ℕ) (provider : Provider) (hash : String)
    (cs : List Credential)
    → (user_id == v) ≡ false
    → filter (has_user v) (upsert_credential env new user_id provider hash cs)
      ≡ filter (has_user v) cs
unfolding upsert_credential
upsert_credential-others env new user_id v provider hash cs differ =
    elim (Option-cases (credential_of user_id provider cs)) [
      | inl missing ↦
          let c : Credential = new_credential env new user_id provider hash in
          ground
            (arith, filter-append (has_user v) cs (c ∷ []), append_nil (filter (has_user v) cs))
      | inr (c, found) ↦
          let same : upsert_credential env new user_id provider hash cs
              ≡ update_where (is_credential user_id provider) (set_hash hash) cs =
            ground arith in
          rw same (
            filter-update_where (is_credential user_id provider) (has_user v) (set_hash hash) cs
              (λ x k. eq_false user_id v x.user_id differ (ground arith))
              (λ x k. eq_false user_id v x.user_id differ (ground arith)))
    ]

link_guest_account-others :
    (env : Env) (new : Fresh) (provider : Provider) (who : Identity) (u : User) (v : ℕ)
    (db : AuthDb)
    → (u.id == v) ≡ false
    → mine v (link_guest_account env new provider who u db).1 ≡ mine v db
unfolding link_guest_account issue
link_guest_account-others env new provider who u v db differ =
    elim (Bool-cases (u.is_active && same_kind u.account_kind app)) [
      | inr out ↦ ground arith
      | inl lane ↦
          ground (
            arith,
            upsert_credential-others env new u.id v provider (oauth_hash who) db.credentials,
          )
    ]

create_oauth_guest-others :
    (env : Env) (new : Fresh) (provider : Provider) (who : Identity) (email : String) (v : ℕ)
    (db : AuthDb)
    → (new.user_id == v) ≡ false
    → mine v (create_oauth_guest env new provider who email db).1 ≡ mine v db
unfolding create_oauth_guest create_user issue
create_oauth_guest-others env new provider who email v db differ =
    let u : User = new_oauth_guest new provider who email in
    let c : Credential = new_credential env new new.user_id provider (oauth_hash who) in
    elim (Bool-cases (any (is_other_lane email) db.users || any (clashes u) db.users)) [
      | inl taken ↦ ground arith
      | inr free ↦
          let same : (create_oauth_guest env new provider who email db).1.credentials
              ≡ db.credentials ++ c ∷ [] =
            ground arith in
          ground (arith, filter-append (has_user v) db.credentials (c ∷ []), append_nil (mine v db))
    ]

return_guest-others :
    (env : Env) (new : Fresh) (who : Identity) (u : User) (v : ℕ) (db : AuthDb)
    → mine v (return_guest env new who u db).1 ≡ mine v db
unfolding return_guest issue
return_guest-others env new who u v db = ground arith

-- Ids whose accounts differ are different.
accounts_differ :
    (a b : ℕ) (db : AuthDb) (p : Option User → Bool)
    → p (user_at a db) ≡ true
    → p (user_at b db) ≡ false
    → (a == b) ≡ false
accounts_differ a b db p holds fails = elim (Bool-cases (a == b)) [
  | inr differ ↦ differ
  | inl same ↦
      let e : p (user_at a db) ≡ p (user_at b db) =
        ap (λ id. p (user_at id db)) ((==_iff a b).0 same) in
      cc
]

abbrev no_or_guest : Option User → Bool
no_or_guest none = true
no_or_guest (some u) = is_guest u

-- The key of the users' table: a search by a row's id finds the row.
unfoldable pub UniqueIds : AuthDb → Type 0
UniqueIds db = All (λ u. user_at u.id db ≡ some u) db.users

-- Where ids are unique and the new id is none's, a sign-in with Google or Apple, refused or not,
-- leaves the credentials of every account that is not a guest's as they were.
pub login_with_oauth-others :
    (env : Env) (new : Fresh) (provider : OauthProvider) (who : Identity) (v : ℕ) (w : User)
    (db : AuthDb)
    → UniqueIds db
    → user_at new.user_id db ≡ none
    → user_at v db ≡ some w
    → is_guest w ≡ false
    → mine v (login_with_oauth env new provider who db).1 ≡ mine v db
unfolding UniqueIds login_with_oauth find_or_create_oauth
login_with_oauth-others env new provider who v w db unique fresh there lane =
    elim (Option-cases (linked_account (provider_of provider) (oauth_hash who) db)) [
      | inr (u, linked) ↦ ground (arith, return_guest-others env new who u v db)
      | inl unlinked ↦ elim (Option-cases (oauth_email env who)) [
        | inl missing ↦ ground arith
        | inr (email, sent) ↦ elim (Option-cases (find? (is_live_guest email) db.users)) [
          | inr (u, found) ↦
              let guest : is_live_guest email u ≡ true =
                find?_sound (is_live_guest email) db.users u found in
              let own : user_at u.id db ≡ some u =
                In-find? (is_live_guest email) db.users u found (λ x. user_at x.id db ≡ some x)
                  unique in
              let differ : (u.id == v) ≡ false =
                accounts_differ u.id v db no_or_guest (ground arith) (ground arith) in
              ground
                (arith, link_guest_account-others env new (provider_of provider) who u v db differ)
          | inl absent ↦
              let differ : (new.user_id == v) ≡ false =
                accounts_differ new.user_id v db no_or_guest (ground arith) (ground arith) in
              ground (
                arith,
                create_oauth_guest-others env new (provider_of provider) who email v db differ,
              )
        ]
      ]
    ]
