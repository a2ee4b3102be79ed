-- ===== src/Auth/Accounts.antt =====
-- src/modules/auth/auth.service.ts: the tables of accounts, what the handlers share, and the
-- sign-in handlers' last step. The children have the handlers.
pub mod Shapes
pub mod SignIn
pub mod Secrets
pub mod SignUp
pub mod Staff
pub mod Oauth
mod Examples
pub mod Admitted
pub mod Linked
pub mod Replaced
pub mod Returns
use msk_back.Base.{
  ℕ, String, Bool, true, false, ◌&&◌, Option, none, some, List, [], ◌∷◌, ◌++◌, ◌==◌, find?,
  update_where,
}
use msk_back.Base.Action.{Action, modify}
use msk_back.Base.Text.{same_text}
use msk_back.Auth.Otp.{Purpose, OtpCode, OtpDb, send, consume}
use msk_back.Auth.Tokens.{RefreshToken, Draw, Issued, issue}
use msk_back.Permissions.Catalog.{Role}
use msk_back.Bookings.Tables.{AccountKind, Status, platform, app}

pub data Provider : Type 0 where
  pin password otp_only google apple : Provider

abbrev pub provider_no : Provider → ℕ
provider_no pin = 0
provider_no password = 1
provider_no otp_only = 2
provider_no google = 3
provider_no apple = 4

abbrev pub same_provider : Provider → Provider → Bool
same_provider p q = provider_no p == provider_no q

abbrev pub same_kind : AccountKind → AccountKind → Bool
same_kind platform platform = true
same_kind app app = true
same_kind _ _ = false

-- The row that is made with the account: a guest's, a member of staff's with the position, or a
-- supplier's with the company's name.
pub data Profile : Type 0 where
  guest_profile : Profile
  staff_profile supplier_profile : String → Profile

-- The texts that the onboarding wizard leaves in the column `metadata`.
pub record Metadata : Type 0 where
  pub address : Option String
  pub date_of_birth : Option String
  pub selfie_url : Option String
  pub username : Option String

pub record User : Type 0 where
  pub id : ℕ
  pub email : Option String
  pub phone : Option String
  pub first_name : Option String
  pub last_name : Option String
  pub full_name : Option String
  pub role : Role
  pub account_kind : AccountKind
  pub auth_provider : Provider
  pub email_verified : Bool
  pub is_active : Bool
  pub metadata : Metadata
  pub profile : Option Profile
  pub company_id : Option ℕ
  pub last_login_at : Option ℕ
  pub deleted_at : Option ℕ

pub record Credential : Type 0 where
  pub id : ℕ
  pub user_id : ℕ
  pub provider : Provider
  pub secret_hash : String

pub record Company : Type 0 where
  pub id : ℕ
  pub name : String
  pub slug : String
  pub email : Option String
  pub address : Option String

-- The columns of a booking that these handlers read.
pub record Stay : Type 0 where
  pub reference : String
  pub check_in_code : Option String
  pub status : Status
  pub guest_user_id : Option ℕ
  pub guest_last_name : Option String
  pub guest_email : Option String
  pub guest_phone : Option String

pub record AuthDb : Type 0 where
  pub users : List User
  pub credentials : List Credential
  pub companies : List Company
  pub stays : List Stay
  pub codes : List OtpCode
  pub tokens : List RefreshToken

-- The packages and the settings: argon2, SHA-256, the changes of case, the database's comparison
-- without case, and the two lifetimes.
pub record Env : Type 0 where
  pub hash_of : String → String
  pub matches : String → String → Bool
  pub token_hash : String → String
  pub lower : String → String
  pub upper : String → String
  pub same_uncased : String → String → Bool
  pub otp_ttl : ℕ
  pub token_days : ℕ

-- The time of a request, and what its rows get: ids and random texts.
pub record Fresh : Type 0 where
  pub now : ℕ
  pub user_id : ℕ
  pub credential_id : ℕ
  pub company_id : ℕ
  pub slug_suffix : String
  pub otp_id : ℕ
  pub otp_code : String
  pub token : Draw

-- A call of the service of one-time codes, whose `send` and `consume` only use the codes.
abbrev pub on_codes : {A : Type 0} → Action OtpDb A → Action AuthDb A
on_codes m db =
    let (r, after) = m (record { codes = db.codes; accounts = [] }) in
    (r, record db { codes = after.codes })

-- A call of the token service.
abbrev pub on_tokens : {A : Type 0} → Action (List RefreshToken) A → Action AuthDb A
on_tokens m db = let (r, tokens) = m db.tokens in (r, record db { tokens = tokens })

abbrev pub user_at : ℕ → AuthDb → Option User
user_at id db = find? (λ u. u.id == id) db.users

abbrev pub write_user : ℕ → (User → User) → Action AuthDb (Unit {0})
write_user id f = modify (λ db. record db { users = update_where (λ u. u.id == id) f db.users })

abbrev pub is_credential : ℕ → Provider → Credential → Bool
is_credential user_id provider c = c.user_id == user_id && same_provider c.provider provider

-- `user.credentials.find((c) => c.provider === provider)`
unfoldable pub credential_of : ℕ → Provider → List Credential → Option Credential
credential_of user_id provider = find? (is_credential user_id provider)

abbrev pub new_credential : Env → Fresh → ℕ → Provider → String → Credential
new_credential env new user_id provider secret_hash = record {
  id = new.credential_id;
  user_id = user_id;
  provider = provider;
  secret_hash = secret_hash;
}

abbrev pub set_hash : String → Credential → Credential
set_hash secret_hash c = record c { secret_hash = secret_hash }

-- `userCredential.upsert`, by the user and the provider.
unfoldable pub upsert_credential :
    Env → Fresh → ℕ → Provider → String → List Credential → List Credential
upsert_credential env new user_id provider secret_hash cs =
    elim (credential_of user_id provider cs) [
      | some _ ↦ update_where (is_credential user_id provider) (set_hash secret_hash) cs
      | none ↦ cs ++ new_credential env new user_id provider secret_hash ∷ []
    ]

abbrev pub write_credential : Env → Fresh → ℕ → Provider → String → Action AuthDb (Unit {0})
write_credential env new user_id provider secret_hash = modify (λ db. record db {
  credentials = upsert_credential env new user_id provider secret_hash db.credentials;
})

abbrev pub send_code : Env → Fresh → String → Purpose → Option ℕ → Action AuthDb Bool
send_code env new destination purpose user_id =
    on_codes
      (send env.hash_of env.otp_ttl new.now new.otp_id user_id destination purpose new.otp_code)

abbrev pub consume_code : Env → Fresh → String → Purpose → String → Action AuthDb OtpCode
consume_code env new destination purpose code =
    on_codes (consume env.matches new.now destination purpose code)

abbrev pub issue_for : Env → Fresh → ℕ → Action AuthDb Issued
issue_for env new user_id =
    on_tokens (issue env.token_hash env.token_days new.now new.token user_id)

-- `lastLoginAt: new Date()`
abbrev pub seen_at : ℕ → User → User
seen_at now u = record u { last_login_at = some now }

abbrev pub same_optional : Option String → Option String → Bool
same_optional none none = true
same_optional (some s) (some t) = same_text s t
same_optional _ _ = false
