-- ===== src/Waitlist.antt =====
-- src/modules/waitlist/waitlist.service.ts: the waiting list of the website. The email to the
-- operators is not modelled; `lower` is the change of case.
mod Examples
pub mod OneEach
use msk_back.Base.{
  ℕ, String, Bool, not, Option, none, some, List, [], ◌∷◌, ◌++◌, ◌==◌, if◌then◌else◌, or_else,
  find?, update_where, delete_where,
}
use msk_back.Base.Action.{Action, pure, gets, or_throw, ◌>>=◌, ◌>>◌, modify, internal_error}
use msk_back.Base.Text.{is_blank, same_text, trim, concat}

pub record Entry : Type 0 where
  pub id : ℕ
  pub email : String
  pub first_name : Option String
  pub last_name : Option String
  pub full_name : Option String
  pub role : Option String
  pub property_count : Option ℕ
  pub unit_count : Option ℕ
  pub phone : Option String
  pub source : Option String
  pub notes : Option String

pub record Signup : Type 0 where
  pub email : String
  pub first_name : Option String
  pub last_name : Option String
  pub role : Option String
  pub property_count : Option ℕ
  pub unit_count : Option ℕ
  pub phone : Option String
  pub source : Option String

-- `s?.trim() || null`
abbrev pub trimmed : Option String → Option String
trimmed none = none
trimmed (some s) = let t = trim s in if is_blank t then none else some t

-- `[firstName, lastName].filter(Boolean).join(' ').trim() || null`
abbrev pub joined : Option String → Option String → Option String
joined none none = none
joined (some f) none = trimmed (some f)
joined none (some l) = trimmed (some l)
joined (some f) (some l) = trimmed (some (concat f (concat " " l)))

-- `email.trim().toLowerCase()`
abbrev pub email_of : (String → String) → Signup → String
email_of lower sub = lower (trim sub.email)

unfoldable pub new_entry : (String → String) → ℕ → Signup → Entry
new_entry lower id sub = record {
  id = id;
  email = email_of lower sub;
  first_name = trimmed sub.first_name;
  last_name = trimmed sub.last_name;
  full_name = joined (trimmed sub.first_name) (trimmed sub.last_name);
  role = trimmed sub.role;
  property_count = sub.property_count;
  unit_count = sub.unit_count;
  phone = trimmed sub.phone;
  source = trimmed sub.source;
  notes = none;
}

-- A field that is not sent leaves the column, and the source is the first one's.
unfoldable pub refreshed : Signup → Entry → Entry
refreshed sub e = record e {
  first_name = or_else (trimmed sub.first_name) e.first_name;
  last_name = or_else (trimmed sub.last_name) e.last_name;
  full_name = or_else (joined (trimmed sub.first_name) (trimmed sub.last_name)) e.full_name;
  role = or_else (trimmed sub.role) e.role;
  property_count = or_else sub.property_count e.property_count;
  unit_count = or_else sub.unit_count e.unit_count;
  phone = or_else (trimmed sub.phone) e.phone;
}

abbrev pub has_email : String → Entry → Bool
has_email email e = same_text e.email email

unfoldable pub signup : (String → String) → ℕ → Signup → Action (List Entry) Entry
signup lower id sub = do
  found ← gets (find? (has_email (email_of lower sub)))
  elim found [
    | none ↦ do modify (λ es. es ++ new_entry lower id sub ∷ []); pure (new_entry lower id sub)
    | some e ↦ do
      modify (update_where (has_email (email_of lower sub)) (refreshed sub))
      pure (refreshed sub e)
  ]

abbrev pub with_notes : Option String → Entry → Entry
with_notes text e = record e { notes = text }

unfoldable pub update_notes : ℕ → Option String → Action (List Entry) Entry
update_notes id text = do
  e ← or_throw (← gets (find? (λ e. e.id == id))) (internal_error "Record to update not found.")
  modify (update_where (λ e. e.id == id) (with_notes text))
  pure (with_notes text e)

unfoldable pub remove : ℕ → Action (List Entry) Entry
remove id = do
  e ←
      or_throw (← gets (find? (λ e. e.id == id)))
        (internal_error "Record to delete does not exist.")
  modify (delete_where (λ e. e.id == id))
  pure e
