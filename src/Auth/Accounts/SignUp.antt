-- ===== src/Auth/Accounts/SignUp.antt =====
-- src/modules/auth/auth.service.ts: the registrations of a guest on the website, of a guest in the
-- app, of an administrator and of the staff, operators and suppliers.
use msk_back.Base.{
  ℕ, String, Bool, true, false, ◌&&◌, ◌||◌, Option, none, some, [], ◌∷◌, ◌++◌, ◌==◌, if◌then◌else◌,
  get_or, or_else, find?, any,
}
use msk_back.Base.Action.{
  HttpError, Action, pure, gets, or_throw, ◌>>=◌, ◌>>◌, throw_if, modify, bad_request,
  internal_error,
}
use msk_back.Base.Text.{is_blank, same_text, text_is, is_space, trim, concat}
use msk_back.Auth.Otp.{sign_up, verify_email, verify_phone}
use msk_back.Auth.Tokens.{Issued}
use msk_back.Permissions.Catalog.{web_guest, admin}
use msk_back.Permissions.{same_role}
use msk_back.Auth.Accounts.{
  Metadata, User, Credential, Company, AuthDb, Env, Fresh, new_credential, send_code, issue_for,
  guest_profile, staff_profile, password, pin,
}
use msk_back.Auth.Accounts.Shapes.{dashed}
use msk_back.Bookings.Tables.{platform, app}

abbrev pub is_same_filled : Option String → Option String → Bool
is_same_filled (some s) (some t) = same_text s t
is_same_filled _ _ = false

-- The unique indexes of the table: the email, the phone and the username, each with the role.
abbrev pub clashes : User → User → Bool
clashes u v =
    same_role u.role v.role
    && (is_same_filled u.email v.email
        || is_same_filled u.phone v.phone
        || is_same_filled u.metadata.username v.metadata.username)

abbrev pub add_user : User → Credential → AuthDb → AuthDb
add_user u c db = record db { users = db.users ++ u ∷ []; credentials = db.credentials ++ c ∷ [] }

-- `user.create` with its credential, and the error that a clash gives.
unfoldable pub create_user : HttpError → User → Credential → Action AuthDb (Unit {0})
create_user e u c = do throw_if (← gets (λ db. any (clashes u) db.users)) e; modify (add_user u c)

abbrev pub unique_failed : HttpError
unique_failed = internal_error "Unique constraint failed on the fields: (`email`,`role`)"

abbrev pub or_null : String → Option String
or_null s = if is_blank s then none else some s

abbrev pub full_name_of : String → String → String
full_name_of first last = trim (concat first (concat " " last))

abbrev pub no_metadata : Metadata
no_metadata = record { address = none; date_of_birth = none; selfie_url = none; username = none }

pub record RegisterWebGuest : Type 0 where
  pub email : String
  pub password : String
  pub first_name : String
  pub last_name : String

unfoldable pub new_web_guest : Fresh → RegisterWebGuest → User
new_web_guest new sub = record {
  id = new.user_id;
  email = some sub.email;
  phone = none;
  first_name = some sub.first_name;
  last_name = some sub.last_name;
  full_name = some (full_name_of sub.first_name sub.last_name);
  role = web_guest;
  account_kind = app;
  auth_provider = password;
  email_verified = false;
  is_active = true;
  metadata = no_metadata;
  profile = none;
  company_id = none;
  last_login_at = none;
  deleted_at = none;
}

unfoldable pub register_web_guest : Env → Fresh → RegisterWebGuest → Action AuthDb Issued
register_web_guest env new sub = do
  throw_if (← gets (λ db. any (λ u. text_is u.email sub.email) db.users))
      (bad_request "Email already registered")
  create_user unique_failed (new_web_guest new sub)
      (new_credential env new new.user_id password (env.hash_of sub.password))
  send_code env new sub.email verify_email (some new.user_id)
  issue_for env new new.user_id

pub record RegisterGuest : Type 0 where
  pub phone : Option String
  pub email : Option String
  pub first_name : Option String
  pub last_name : Option String
  pub pin : String

unfoldable pub new_guest : Fresh → RegisterGuest → User
new_guest new sub = record {
  id = new.user_id;
  email = sub.email;
  phone = sub.phone;
  first_name = sub.first_name;
  last_name = sub.last_name;
  full_name = or_null (full_name_of (get_or sub.first_name "") (get_or sub.last_name ""));
  role = web_guest;
  account_kind = app;
  auth_provider = pin;
  email_verified = false;
  is_active = true;
  metadata = no_metadata;
  profile = some guest_profile;
  company_id = none;
  last_login_at = none;
  deleted_at = none;
}

-- The answer is the id of the account, which has no token before its code is verified.
unfoldable pub register_guest : Env → Fresh → RegisterGuest → Action AuthDb ℕ
register_guest env new sub = do
  create_user unique_failed (new_guest new sub)
      (new_credential env new new.user_id pin (env.hash_of sub.pin))
  destination ←
      or_throw (or_else sub.phone sub.email) (internal_error "Argument `destination` is missing.")
  send_code env new destination verify_phone (some new.user_id)
  pure new.user_id

-- `company.create`, whose slug is unique.
unfoldable pub create_company : Company → Action AuthDb (Unit {0})
create_company c = do
  throw_if (← gets (λ db. any (λ d. same_text d.slug c.slug) db.companies))
      (internal_error "Unique constraint failed on the fields: (`slug`)")
  modify (λ db. record db { companies = db.companies ++ c ∷ [] })

pub record RegisterAdmin : Type 0 where
  pub email : String
  pub phone : String
  pub first_name : String
  pub last_name : String
  pub pin : String
  pub company_id : Option ℕ
  pub company_name : Option String

unfoldable pub new_admin : Fresh → RegisterAdmin → ℕ → User
new_admin new sub company_id = record {
  id = new.user_id;
  email = some sub.email;
  phone = some sub.phone;
  first_name = some sub.first_name;
  last_name = some sub.last_name;
  full_name = some (full_name_of sub.first_name sub.last_name);
  role = admin;
  account_kind = platform;
  auth_provider = pin;
  email_verified = false;
  is_active = true;
  metadata = no_metadata;
  profile = some (staff_profile "Admin");
  company_id = some company_id;
  last_login_at = none;
  deleted_at = none;
}

abbrev pub admin_company : Env → Fresh → RegisterAdmin → Company
admin_company env new sub = record {
  id = new.company_id;
  name = get_or sub.company_name (concat sub.first_name "'s Company");
  slug = dashed is_space (env.lower (get_or sub.company_name (concat sub.first_name "-company")));
  email = none;
  address = none;
}

-- The company that is named by its id, or a new one.
unfoldable pub connect_company : Env → Fresh → RegisterAdmin → Action AuthDb ℕ
connect_company env new sub = elim sub.company_id [
  | some id ↦ do
    or_throw (← gets (λ db. find? (λ c. c.id == id) db.companies))
        (internal_error "No 'Company' record was found for a nested connect.")
    pure id
  | none ↦ do create_company (admin_company env new sub); pure new.company_id
]

-- One nested write: a clash of the account leaves no company behind.
unfoldable pub register_admin : Env → Fresh → RegisterAdmin → Action AuthDb ℕ
register_admin env new sub = do
  throw_if (← gets (λ db. any (clashes (new_admin new sub 0)) db.users)) unique_failed
  company_id ← connect_company env new sub
  create_user unique_failed (new_admin new sub company_id)
      (new_credential env new new.user_id pin (env.hash_of sub.pin))
  send_code env new sub.email sign_up (some new.user_id)
  pure new.user_id
