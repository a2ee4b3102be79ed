-- ===== src/Auth/Accounts/Oauth.antt =====
-- src/modules/auth/auth.service.ts: the sign-in of a guest with Google or Apple. The identity is what
-- the provider's token says once it is verified.
use msk_back.Base.{
  ℕ, String, Bool, true, not, ◌&&◌, ◌||◌, Option, none, some, ◌==◌, if◌then◌else◌, get_or, or_else,
  is_some, find?, any,
}
use msk_back.Base.Action.{
  HttpError, Action, throw, gets, ◌>>=◌, ◌>>◌, throw_if, bad_request, unauthorized,
}
use msk_back.Base.Text.{is_blank, is_filled, same_text, text_is, trim, concat}
use msk_back.Auth.Tokens.{Issued}
use msk_back.Permissions.Catalog.{web_guest}
use msk_back.Permissions.{same_role}
use msk_back.Auth.Accounts.{
  Provider, same_provider, same_kind, User, Credential, AuthDb, Env, Fresh, user_at, write_user,
  new_credential, write_credential, issue_for, google, apple, guest_profile,
}
use msk_back.Auth.Accounts.SignIn.{is_guest}
use msk_back.Auth.Accounts.SignUp.{is_same_filled, create_user, unique_failed, or_null, no_metadata}
use msk_back.Bookings.Tables.{app}

pub data OauthProvider : Type 0 where
  with_google with_apple : OauthProvider

abbrev pub provider_of : OauthProvider → Provider
provider_of with_google = google
provider_of with_apple = apple

pub record Identity : Type 0 where
  pub provider_user_id : String
  pub email : Option String
  pub email_verified : Bool
  pub first_name : Option String
  pub last_name : Option String
  pub full_name : Option String

-- `oauth:<sub>`
abbrev pub oauth_hash : Identity → String
oauth_hash who = concat "oauth:" who.provider_user_id

abbrev pub is_oauth_key : Provider → String → Credential → Bool
is_oauth_key provider hash c = same_provider c.provider provider && same_text c.secret_hash hash

-- The account of the credential that the provider's identity already has.
abbrev pub linked_account : Provider → String → AuthDb → Option User
linked_account provider hash db = elim (find? (is_oauth_key provider hash) db.credentials) [
  | none ↦ none
  | some c ↦ user_at c.user_id db
]

abbrev pub may_oauth : User → Bool
may_oauth u =
    u.is_active && not (is_some u.deleted_at) && is_guest u && same_kind u.account_kind app

abbrev pub fills_email : Identity → User → Bool
fills_email who u = is_filled who.email && not (is_filled u.email)

abbrev pub returned : ℕ → Identity → User → User
returned now who u = record u {
  last_login_at = some now;
  email_verified = who.email_verified || u.email_verified;
  email = if fills_email who u then who.email else u.email;
}

unfoldable pub return_guest : Env → Fresh → Identity → User → Action AuthDb Issued
return_guest env new who u = do
  throw_if (not (may_oauth u)) (unauthorized "Invalid credentials")
  taken ← gets (λ db.
      any (λ v. not (v.id == u.id) && same_role v.role u.role && is_same_filled v.email who.email)
        db.users)
  throw_if (fills_email who u && taken) unique_failed
  write_user u.id (returned new.now who)
  issue_for env new u.id

-- `identity.email?.trim().toLowerCase() || null`
abbrev pub oauth_email : Env → Identity → Option String
oauth_email env who = elim who.email [ none ↦ none | some e ↦ or_null (env.lower (trim e)) ]

abbrev pub is_live_guest : String → User → Bool
is_live_guest email u = text_is u.email email && is_guest u && not (is_some u.deleted_at)

unfoldable pub link_guest_account : Env → Fresh → Provider → Identity → User → Action AuthDb Issued
link_guest_account env new provider who u = do
  throw_if (not (u.is_active && same_kind u.account_kind app)) (unauthorized "Invalid credentials")
  write_credential env new u.id provider (oauth_hash who)
  write_user u.id (λ x. record x { last_login_at = some new.now; email_verified = true })
  issue_for env new u.id

-- `[firstName, lastName].filter(Boolean).join(' ') || null`
abbrev pub joined_name : Option String → Option String → Option String
joined_name first last =
    if is_filled first && is_filled last
    then some (concat (get_or first "") (concat " " (get_or last "")))
    else if is_filled first
    then first
    else if is_filled last
    then last
    else none

unfoldable pub new_oauth_guest : Fresh → Provider → Identity → String → User
new_oauth_guest new provider who email = record {
  id = new.user_id;
  email = some email;
  phone = none;
  first_name = who.first_name;
  last_name = who.last_name;
  full_name = or_else who.full_name (joined_name who.first_name who.last_name);
  role = web_guest;
  account_kind = app;
  auth_provider = provider;
  email_verified = who.email_verified || not (is_blank email);
  is_active = true;
  metadata = no_metadata;
  profile = some guest_profile;
  company_id = none;
  last_login_at = some new.now;
  deleted_at = none;
}

abbrev pub is_other_lane : String → User → Bool
is_other_lane email u = text_is u.email email && not (is_guest u)

unfoldable pub create_oauth_guest :
    Env → Fresh → Provider → Identity → String → Action AuthDb Issued
create_oauth_guest env new provider who email = do
  throw_if (← gets (λ db. any (is_other_lane email) db.users))
      (unauthorized "No guest account is registered with this email.")
  create_user unique_failed (new_oauth_guest new provider who email)
      (new_credential env new new.user_id provider (oauth_hash who))
  issue_for env new new.user_id

abbrev pub no_email : OauthProvider → HttpError
no_email with_apple = bad_request "Apple did not share an email for this account."
no_email with_google = bad_request "Google account has no email"

-- The identity has no credential yet: link the guest of the email, or make one.
unfoldable pub find_or_create_oauth : Env → Fresh → OauthProvider → Identity → Action AuthDb Issued
find_or_create_oauth env new provider who = elim (oauth_email env who) [
  | none ↦ throw (no_email provider)
  | some email ↦ do
    guest ← gets (λ db. find? (is_live_guest email) db.users)
    elim guest [
      | some u ↦ link_guest_account env new (provider_of provider) who u
      | none ↦ create_oauth_guest env new (provider_of provider) who email
    ]
]

unfoldable pub login_with_oauth : Env → Fresh → OauthProvider → Identity → Action AuthDb Issued
login_with_oauth env new provider who = do
  account ← gets (linked_account (provider_of provider) (oauth_hash who))
  elim account [
    | some u ↦ return_guest env new who u
    | none ↦ find_or_create_oauth env new provider who
  ]

-- `full?.trim()`, kept where it is not empty.
abbrev pub trimmed_name : Option String → Option String
trimmed_name o = elim o [ none ↦ none | some s ↦ or_null (trim s) ]

abbrev pub filled_name : Option String → Option String
filled_name o = if is_filled o then o else none

-- The names that Apple's dialog gives once, before those of the token.
abbrev pub apple_identity : Option String → Option String → Option String → Identity → Identity
apple_identity first last full who = record who {
  first_name = or_else first who.first_name;
  last_name = or_else last who.last_name;
  full_name = or_else (trimmed_name full) (
      or_else (filled_name who.full_name)
        (joined_name (or_else first who.first_name) (or_else last who.last_name)));
}
