-- ===== src/Auth/Accounts/Staff.antt =====
-- src/modules/auth/auth.service.ts: `registerStaff`, the onboarding of staff, operators and suppliers.
use msk_back.Base.{
  ℕ, String, Bool, true, false, not, ◌&&◌, Option, none, some, if◌then◌else◌, get_or, any,
}
use msk_back.Base.Action.{Action, pure, gets, ◌>>=◌, ◌>>◌, throw_if, bad_request}
use msk_back.Base.Text.{is_blank, is_filled, text_is, trim, concat}
use msk_back.Auth.Tokens.{Issued}
use msk_back.Permissions.Catalog.{
  Role, web_guest, receptionist, staff, supervisor, supplier, admin, super_user,
}
use msk_back.Permissions.{same_role}
use msk_back.Auth.Accounts.{
  Profile, Metadata, User, Company, AuthDb, Env, Fresh, new_credential, issue_for, staff_profile,
  supplier_profile, password,
}
use msk_back.Auth.Accounts.Shapes.{dashed, drop_dashes, drop_last_dashes, is_not_slug, slice}
use msk_back.Auth.Accounts.SignUp.{create_user, or_null, full_name_of, create_company}
use msk_back.Bookings.Tables.{app}

pub record RegisterStaff : Type 0 where
  pub email : String
  pub password : String
  pub first_name : String
  pub last_name : String
  pub phone : Option String
  pub username : Option String
  pub date_of_birth : Option String
  pub address : Option String
  pub selfie_url : Option String
  pub role : Option Role
  pub business_name : Option String
  pub business_email : Option String
  pub business_address : Option String

-- `if (dto.x) metadata.x = dto.x`
abbrev pub if_filled : Option String → Option String
if_filled o = if is_filled o then o else none

-- `dto.x?.trim() || null`
abbrev pub trimmed_or_null : Option String → Option String
trimmed_or_null o = elim o [ none ↦ none | some s ↦ or_null (trim s) ]

-- The role's first letter and the rest in lower case.
abbrev pub position_of : Role → String
position_of web_guest = "Web_guest"
position_of receptionist = "Receptionist"
position_of staff = "Staff"
position_of supervisor = "Supervisor"
position_of supplier = "Supplier"
position_of admin = "Admin"
position_of super_user = "Super_user"

abbrev pub staff_metadata : RegisterStaff → Metadata
staff_metadata sub = record {
  address = if_filled sub.address;
  date_of_birth = if_filled sub.date_of_birth;
  selfie_url = if_filled sub.selfie_url;
  username = if_filled sub.username;
}

-- `fullName || dto.email` for a supplier's company, or the position.
abbrev pub profile_for : Role → RegisterStaff → Profile
profile_for supplier sub =
    supplier_profile (get_or (or_null (full_name_of sub.first_name sub.last_name)) sub.email)
profile_for r sub = staff_profile (position_of r)

-- `dto.email.trim().toLowerCase()`
abbrev pub staff_email : Env → RegisterStaff → String
staff_email env sub = env.lower (trim sub.email)

abbrev pub staff_role : RegisterStaff → Role
staff_role sub = get_or sub.role staff

unfoldable pub new_staff : Env → Fresh → RegisterStaff → Option ℕ → User
new_staff env new sub company_id = record {
  id = new.user_id;
  email = some (staff_email env sub);
  phone = sub.phone;
  first_name = some sub.first_name;
  last_name = some sub.last_name;
  full_name = some (full_name_of sub.first_name sub.last_name);
  role = staff_role sub;
  account_kind = app;
  auth_provider = password;
  email_verified = true;
  is_active = true;
  metadata = staff_metadata sub;
  profile = some (profile_for (staff_role sub) sub);
  company_id = company_id;
  last_login_at = some new.now;
  deleted_at = none;
}

-- The slug of a business, without the random part.
abbrev pub base_slug : Env → String → String
base_slug env name =
    let kept =
      slice 40 (drop_last_dashes (drop_dashes (dashed is_not_slug (env.lower (trim name))))) in
    if is_blank kept then "company" else kept

abbrev pub business : Env → Fresh → RegisterStaff → String → Company
business env new sub name = record {
  id = new.company_id;
  name = trim name;
  slug = concat (base_slug env name) (concat "-" new.slug_suffix);
  email = trimmed_or_null sub.business_email;
  address = trimmed_or_null sub.business_address;
}

-- An operator who names a business gets a company.
unfoldable pub connect_business : Env → Fresh → RegisterStaff → Action AuthDb (Option ℕ)
connect_business env new sub = elim sub.business_name [
  | none ↦ pure none
  | some name ↦
      if same_role (staff_role sub) admin && not (is_blank (trim name))
      then (create_company (business env new sub name) >> pure (some new.company_id))
      else pure none
]

-- `dto.username && dto.username.trim()`, and another account of the role has the name.
abbrev pub is_name_taken : RegisterStaff → AuthDb → Bool
is_name_taken sub db = elim sub.username [
  | none ↦ false
  | some name ↦
      not (is_blank (trim name))
      && any (λ u. same_role u.role (staff_role sub) && text_is u.metadata.username (trim name))
          db.users
]

abbrev pub is_registered : Env → RegisterStaff → User → Bool
is_registered env sub u = text_is u.email (staff_email env sub) && same_role u.role (staff_role sub)

unfoldable pub register_staff : Env → Fresh → RegisterStaff → Action AuthDb Issued
register_staff env new sub = do
  throw_if (← gets (λ db. any (is_registered env sub) db.users))
      (bad_request "This email is already registered.")
  throw_if (← gets (is_name_taken sub)) (bad_request "The username is already taken.")
  company_id ← connect_business env new sub
  create_user (bad_request "Email or phone already in use.") (new_staff env new sub company_id)
      (new_credential env new new.user_id password (env.hash_of sub.password))
  issue_for env new new.user_id
