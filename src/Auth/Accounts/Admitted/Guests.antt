-- ===== src/Auth/Accounts/Admitted/Guests.antt =====
-- Who gets a token at a sign-in for guests only, and at any sign-in.
use msk_back.Base.{
  ℕ, String, ◌≡◌, refl, sym, subst, inl, inr, Bool, true, not, ◌&&◌, ◌||◌, Option, none, some, [],
  ◌∷◌, arith, ◌==◌, ==_refl, Bool-cases, Option-cases, find?, any, find?_sound, any-append,
}
use msk_back.Base.Action.{Result-cases, ◌>>◌, ok}
use msk_back.Base.Text.{is_filled}
use msk_back.Auth.Otp.{login}
use msk_back.Auth.Tokens.{Issued}
use msk_back.Permissions.{same_role}
use msk_back.Auth.Accounts.{
  same_kind, User, Credential, AuthDb, Env, Fresh, write_user, new_credential, write_credential,
  consume_code, issue_for,
}
use msk_back.Auth.Accounts.SignIn.{
  is_guest, guest_by_email, admit_guest, destination_of, login_with_otp,
}
use msk_back.Auth.Accounts.SignUp.{is_same_filled, clashes, add_user, create_user}
use msk_back.Auth.Accounts.Oauth.{
  OauthProvider, provider_of, Identity, oauth_hash, is_oauth_key, linked_account, may_oauth,
  fills_email, returned, return_guest, oauth_email, is_live_guest, link_guest_account,
  new_oauth_guest, is_other_lane, create_oauth_guest, find_or_create_oauth, login_with_oauth,
}
use msk_back.Bookings.Tables.{app}
use msk_back.Auth.Accounts.Admitted.{
  SignIn, sign_in, fits, admits, issue_for-user, admitted, Leaves, Admits, by_password-Admits,
  by_pin-Admits, by_check_in_code-Admits, by_otp, by_check_in_code, by_password, by_pin, by_oauth,
}

-- An account that is active, in the app's lane and a guest's.
abbrev is_app_guest : ℕ → User → Bool
is_app_guest id u = u.id == id && (u.is_active && (same_kind u.account_kind app && is_guest u))

admit_guest-user :
    (env : Env) (new : Fresh) (p : User → Bool) (u : User) (db : AuthDb) (i : Issued)
    → find? p db.users ≡ some u
    → is_guest u ≡ true
    → (admit_guest env new (some u) db).0 ≡ ok i
    → any (is_app_guest i.user_id) (admit_guest env new (some u) db).1.users ≡ true
unfolding admit_guest
admit_guest-user env new p u db i found guest h =
    elim (Bool-cases (u.is_active && (is_filled u.email && same_kind u.account_kind app))) [
      | inr out ↦ ground arith
      | inl lane ↦
          let f : User → User =
            λ x. record x { last_login_at = some new.now; email_verified = true } in
          let same : admit_guest env new (some u) db
              ≡ (write_user u.id f >> issue_for env new u.id) db =
            ground arith in
          subst (λ o. o.0 ≡ ok i → any (is_app_guest i.user_id) o.1.users ≡ true) (sym same)
            (admitted env new p u f db i found is_app_guest (ground (arith, ==_refl u.id))
              (λ x k. k))
            h
    ]

-- The guest that a search found, or none.
admit_found :
    (env : Env) (new : Fresh) (how : SignIn) (p : User → Bool) (o : Option User) (db : AuthDb)
    → find? p db.users ≡ o
    → ((u : User) → p u ≡ true → is_guest u ≡ true)
    → ((id : ℕ) → admits how id ≡ is_app_guest id)
    → Leaves how (admit_guest env new o db)
unfolding admit_guest
admit_found env new how p none db found guest lane i h = ground arith
admit_found env new how p (some u) db found guest lane i h =
    rw (lane i.user_id)
      (admit_guest-user env new p u db i found (guest u (find?_sound p db.users u found)) h)

by_otp-Admits :
    (env : Env) (new : Fresh) (email code : String) (db : AuthDb)
    → Admits env new (by_otp email code) db
unfolding sign_in fits login_with_otp
by_otp-Admits env new email code db =
    let to : String = destination_of email (guest_by_email env email db) in
    elim (Result-cases (consume_code env new to login code db).0) [
      | inl (e, refused) ↦ (λ i h. ground arith)
      | inr (c, used) ↦
          let after : AuthDb = (consume_code env new to login code db).1 in
          let same : sign_in env new (by_otp email code) db
              ≡ admit_guest env new (guest_by_email env email db) after =
            ground arith in
          subst (Leaves (by_otp email code)) (sym same) (
            admit_found env new (by_otp email code) _ (guest_by_email env email db) after refl
              (λ u k. ground arith) (λ id. refl))
    ]

return_guest-Leaves :
    (env : Env) (new : Fresh) (provider : OauthProvider) (who : Identity) (p : User → Bool)
    (u : User) (db : AuthDb)
    → find? p db.users ≡ some u
    → Leaves (by_oauth provider who) (return_guest env new who u db)
unfolding return_guest fits
return_guest-Leaves env new provider who p u db found =
    let clash : Bool =
      fills_email who u
      && any
          (λ v. not (v.id == u.id) && same_role v.role u.role && is_same_filled v.email who.email)
          db.users in
    elim (Bool-cases (may_oauth u && not clash)) [
      | inr out ↦ (λ i h. ground arith)
      | inl lane ↦
          let same : return_guest env new who u db
              ≡ (write_user u.id (returned new.now who) >> issue_for env new u.id) db =
            ground arith in
          subst (Leaves (by_oauth provider who)) (sym same) (λ i h.
            admitted env new p u (returned new.now who) db i found (admits (by_oauth provider who))
              (ground (arith, ==_refl u.id)) (λ x k. k) h)
    ]

link_guest_account-Leaves :
    (env : Env) (new : Fresh) (provider : OauthProvider) (who : Identity) (p : User → Bool)
    (u : User) (db : AuthDb)
    → find? p db.users ≡ some u
    → is_guest u ≡ true
    → Leaves (by_oauth provider who) (link_guest_account env new (provider_of provider) who u db)
unfolding link_guest_account fits
link_guest_account-Leaves env new provider who p u db found guest =
    elim (Bool-cases (u.is_active && same_kind u.account_kind app)) [
      | inr out ↦ (λ i h. ground arith)
      | inl lane ↦
          let f : User → User =
            λ x. record x { last_login_at = some new.now; email_verified = true } in
          let linked : AuthDb =
            (write_credential env new u.id (provider_of provider) (oauth_hash who) db).1 in
          let same : link_guest_account env new (provider_of provider) who u db
              ≡ (write_user u.id f >> issue_for env new u.id) linked =
            ground arith in
          subst (Leaves (by_oauth provider who)) (sym same) (λ i h.
            admitted env new p u f linked i found (admits (by_oauth provider who))
              (ground (arith, ==_refl u.id)) (λ x k. k) h)
    ]

create_oauth_guest-Leaves :
    (env : Env) (new : Fresh) (provider : OauthProvider) (who : Identity) (email : String)
    (db : AuthDb)
    → Leaves
        (by_oauth provider who)
        (create_oauth_guest env new (provider_of provider) who email db)
unfolding create_oauth_guest create_user fits new_oauth_guest
create_oauth_guest-Leaves env new provider who email db =
    let u : User = new_oauth_guest new (provider_of provider) who email in
    let c : Credential =
      new_credential env new new.user_id (provider_of provider) (oauth_hash who) in
    elim (Bool-cases (any (is_other_lane email) db.users || any (clashes u) db.users)) [
      | inl taken ↦ (λ i h. ground arith)
      | inr free ↦
          let same : create_oauth_guest env new (provider_of provider) who email db
              ≡ issue_for env new new.user_id (add_user u c db) =
            ground arith in
          subst (Leaves (by_oauth provider who)) (sym same) (λ i h.
            let own : i.user_id ≡ new.user_id =
              issue_for-user env new new.user_id (add_user u c db) i h in
            rw own (
              ground (
                arith,
                ==_refl new.user_id,
                any-append (admits (by_oauth provider who) new.user_id) db.users (u ∷ []),
              )))
    ]

by_oauth-Admits :
    (env : Env) (new : Fresh) (provider : OauthProvider) (who : Identity) (db : AuthDb)
    → Admits env new (by_oauth provider who) db
unfolding sign_in login_with_oauth find_or_create_oauth
by_oauth-Admits env new provider who db =
    elim (Option-cases (linked_account (provider_of provider) (oauth_hash who) db)) [
      | inr (u, linked) ↦
          let same : sign_in env new (by_oauth provider who) db ≡ return_guest env new who u db =
            ground arith in
          subst (Leaves (by_oauth provider who)) (sym same)
            (elim (Option-cases
              (find? (is_oauth_key (provider_of provider) (oauth_hash who)) db.credentials)) [
                | inl missing ↦ ground arith
                | inr (c, key) ↦
                    let found : find? (λ x. x.id == c.user_id) db.users ≡ some u = ground arith in
                    return_guest-Leaves env new provider who _ u db found
              ])
      | inl unlinked ↦ elim (Option-cases (oauth_email env who)) [
        | inl missing ↦ (λ i h. ground arith)
        | inr (email, sent) ↦ elim (Option-cases (find? (is_live_guest email) db.users)) [
          | inr (u, found) ↦
              let same : sign_in env new (by_oauth provider who) db
                  ≡ link_guest_account env new (provider_of provider) who u db =
                ground arith in
              subst (Leaves (by_oauth provider who)) (sym same) (
                link_guest_account-Leaves env new provider who _ u db found
                  (ground (arith, find?_sound (is_live_guest email) db.users u found)))
          | inl absent ↦
              let same : sign_in env new (by_oauth provider who) db
                  ≡ create_oauth_guest env new (provider_of provider) who email db =
                ground arith in
              subst (Leaves (by_oauth provider who)) (sym same)
                (create_oauth_guest-Leaves env new provider who email db)
        ]
      ]
    ]

-- A request to sign in that succeeds, in any of the five ways, gives its token for an account that
-- is there afterwards and is active; unless the request is by PIN, the account is of the lane that
-- the way is for: the one asked for by password, the app's otherwise. A sign-in by a one-time code,
-- or with Google or Apple, is moreover for a guest's account.
pub sign_in-admits :
    (env : Env) (new : Fresh) (how : SignIn) (db : AuthDb) (i : Issued)
    → (sign_in env new how db).0 ≡ ok i
    → any (admits how i.user_id) (sign_in env new how db).1.users ≡ true
sign_in-admits env new (by_otp email code) db = by_otp-Admits env new email code db
sign_in-admits env new (by_check_in_code code) db = by_check_in_code-Admits env new code db
sign_in-admits env new (by_password sub kind) db = by_password-Admits env new sub kind db
sign_in-admits env new (by_pin sub) db = by_pin-Admits env new sub db
sign_in-admits env new (by_oauth provider who) db = by_oauth-Admits env new provider who db
