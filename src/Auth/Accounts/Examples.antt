-- ===== src/Auth/Accounts/Examples.antt =====
-- An account of the staff, a guest, and the theorems of the accounts on them.
use msk_back.Auth.Tokens.{issue, new_token}
use msk_back.Auth.Accounts.Shapes.{looks_like_email}
use msk_back.Base.{ℕ, String, ◌≡◌, refl, true, none, some, [], ◌∷◌, filter, any}
use msk_back.Base.Action.{ok}
use msk_back.Base.Text.{same_text, trim}
use msk_back.Auth.Otp.{OtpCode, reset_password, consume, latest, is_live}
use msk_back.Permissions.Catalog.{Role, web_guest, staff, admin}
use msk_back.Auth.Accounts.{
  Provider, User, Credential, AuthDb, Env, Fresh, pin, password, credential_of,
}
use msk_back.Auth.Accounts.SignIn.{
  LoginEmail, login_with_email_for_kind, login_with_email_app, find_login, check_secret,
}
use msk_back.Auth.Accounts.Secrets.{
  reset_password_with, provider_for, has_user, change_secret, check_new_secret, replace_credentials,
}
use msk_back.Auth.Accounts.SignUp.{no_metadata, create_company, create_user}
use msk_back.Auth.Accounts.Staff.{RegisterStaff, register_staff, connect_business, new_staff}
use msk_back.Auth.Accounts.Oauth.{Identity, login_with_oauth, with_google}
use msk_back.Bookings.Tables.{app}
use msk_back.Auth.Accounts.Admitted.{sign_in, admits, by_password}
use msk_back.Auth.Accounts.Admitted.Guests.{sign_in-admits}
use msk_back.Auth.Accounts.Replaced.{Replaced, MayChange, change_secret-Replaced}
use msk_back.Auth.Accounts.Returns.{login_with_email_for_kind-reset_password_with}
use msk_back.Auth.Accounts.Returns.Registered.{staff_login, login_with_email_app-register_staff}
use msk_back.Auth.Accounts.Linked.{login_with_oauth-others, UniqueIds}

abbrev as_is : String → String
as_is s = s

-- Hashes and changes of case that are the text itself.
abbrev plain_env : Env
plain_env = record {
  hash_of = as_is;
  matches = same_text;
  token_hash = as_is;
  lower = as_is;
  upper = as_is;
  same_uncased = same_text;
  otp_ttl = 300;
  token_days = 30;
}

abbrev fresh_at : ℕ → ℕ → String → Fresh
fresh_at now id token = record {
  now = now;
  user_id = id;
  credential_id = id;
  company_id = id;
  slug_suffix = "ab12cd";
  otp_id = id;
  otp_code = "654321";
  token = record { id = id; token = token };
}

abbrev a_user : ℕ → String → Role → User
a_user id email role = record {
  id = id;
  email = some email;
  phone = none;
  first_name = some "Ann";
  last_name = some "Lee";
  full_name = some "Ann Lee";
  role = role;
  account_kind = app;
  auth_provider = password;
  email_verified = true;
  is_active = true;
  metadata = no_metadata;
  profile = none;
  company_id = none;
  last_login_at = none;
  deleted_at = none;
}

abbrev a_secret : ℕ → Provider → String → Credential
a_secret user_id provider secret = record {
  id = user_id;
  user_id = user_id;
  provider = provider;
  secret_hash = secret;
}

abbrev a_code : OtpCode
a_code = record {
  id = 9;
  user_id = some 1;
  destination = "ann@x.org";
  purpose = reset_password;
  code_hash = "111111";
  attempts = 0;
  created_at = 900;
  expires_at = 300_900;
  consumed_at = none;
}

abbrev two_users : AuthDb
two_users = record {
  users = a_user 1 "ann@x.org" staff ∷ a_user 2 "guest@x.org" web_guest ∷ [];
  credentials = a_secret 1 pin "1234" ∷ a_secret 2 password "guest-pass" ∷ [];
  companies = [];
  stays = [];
  codes = a_code ∷ [];
  tokens = [];
}

abbrev guest_login : LoginEmail
guest_login = record { email = "guest@x.org"; password = "guest-pass"; role = none }

sign_in-admits_example :
    any
      (admits (by_password guest_login app) 2)
      (sign_in plain_env (fresh_at 2_000 5 "tttt") (by_password guest_login app) two_users).1.users
    ≡ true
unfolding sign_in login_with_email_for_kind find_login looks_like_email trim check_secret
    credential_of issue
sign_in-admits_example =
    sign_in-admits plain_env (fresh_at 2_000 5 "tttt") (by_password guest_login app) two_users
      (record { user_id = 2; refresh_token = "tttt" }) refl

abbrev changed : AuthDb
changed = (change_secret plain_env (fresh_at 2_000 5 "tttt") 1 "1234" "long enough" two_users).1

change_secret-Replaced_example :
    (password ≡ provider_for "long enough")
    × MayChange plain_env 1 "1234" "long enough" two_users
    × Replaced plain_env (fresh_at 2_000 5 "tttt") 1 "long enough" two_users changed
unfolding change_secret check_new_secret replace_credentials
change_secret-Replaced_example =
    change_secret-Replaced plain_env (fresh_at 2_000 5 "tttt") 1 "1234" "long enough" two_users
      changed password refl

abbrev new_login : LoginEmail
new_login = record { email = "ann@x.org"; password = "a new one"; role = some staff }

login_with_email_for_kind-reset_password_with_example :
    (login_with_email_for_kind plain_env
      (fresh_at 3_000 6 "uuuu")
      new_login
      app
      (reset_password_with plain_env
        (fresh_at 2_000 5 "tttt")
        "ann@x.org"
        "111111"
        "a new one"
        two_users).1).0
    ≡ ok (record { user_id = 1; refresh_token = "uuuu" })
unfolding consume latest is_live find_login looks_like_email trim
login_with_email_for_kind-reset_password_with_example =
    login_with_email_for_kind-reset_password_with plain_env (fresh_at 2_000 5 "tttt")
      (fresh_at 3_000 6 "uuuu") "ann@x.org" "111111" new_login two_users a_code
      (a_user 1 "ann@x.org" staff) refl refl refl refl refl refl refl

abbrev bob : RegisterStaff
bob = record {
  email = "bob@y.org";
  password = "bobs-password";
  first_name = "Bob";
  last_name = "Ray";
  phone = none;
  username = some "bob";
  date_of_birth = none;
  address = none;
  selfie_url = none;
  role = some admin;
  business_name = some "Bob & Sons";
  business_email = none;
  business_address = none;
}

abbrev joined : AuthDb
joined = (register_staff plain_env (fresh_at 2_000 5 "tttt") bob two_users).1

login_with_email_app-register_staff_example :
    (login_with_email_app plain_env (fresh_at 3_000 6 "uuuu") (staff_login bob) joined).0
    ≡ ok (record { user_id = 5; refresh_token = "uuuu" })
unfolding register_staff trim connect_business create_company create_user new_staff issue
    looks_like_email find_login credential_of new_token
login_with_email_app-register_staff_example =
    login_with_email_app-register_staff plain_env (fresh_at 2_000 5 "tttt")
      (fresh_at 3_000 6 "uuuu") bob two_users joined
      (record { user_id = 5; refresh_token = "tttt" }) refl refl refl refl refl refl refl

abbrev the_guest : Identity
the_guest = record {
  provider_user_id = "42";
  email = some "guest@x.org";
  email_verified = true;
  first_name = none;
  last_name = none;
  full_name = none;
}

login_with_oauth-others_example :
    filter
      (has_user 1)
      (login_with_oauth plain_env
        (fresh_at 2_000 5 "tttt")
        with_google
        the_guest
        two_users).1.credentials
    ≡ filter (has_user 1) two_users.credentials
unfolding UniqueIds
login_with_oauth-others_example =
    login_with_oauth-others plain_env (fresh_at 2_000 5 "tttt") with_google the_guest 1
      (a_user 1 "ann@x.org" staff) two_users (refl, (refl, tt)) refl refl refl
