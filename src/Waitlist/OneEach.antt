-- ===== src/Waitlist/OneEach.antt =====
-- The entries of an email, under every operation.
use msk_back.Base.{
  ℕ, ◌+◌, ◌≤◌, String, ◌≡◌, refl, ap, inl, inr, Bool, Option, none, List, [], ◌∷◌, ◌++◌, arith,
  ◌==◌, if◌then◌else◌, Bool-cases, Option-cases, length, find?, filter, update_where, delete_where,
}
use msk_back.Base.Text.{same_text}
use msk_back.Waitlist.{
  Entry, Signup, email_of, new_entry, refreshed, has_email, signup, with_notes, update_notes,
  remove,
}
use text.Mathlib.TextEquality.{eq_iff}

-- How many entries an email has.
unfoldable pub entries_of : String → List Entry → ℕ
entries_of email es = length (filter (has_email email) es)

unfoldable pub OneEach : List Entry → Type 0
OneEach es = (email : String) → entries_of email es ≤ 1

-- A request, accepted or refused.
pub data Step : List Entry → List Entry → Type 0 where
  signs_up :
      (lower : String → String) (id : ℕ) (sub : Signup) (es : List Entry)
      → Step es (signup lower id sub es).1
  notes_down :
      (id : ℕ) (text : Option String) (es : List Entry) → Step es (update_notes id text es).1
  removes : (id : ℕ) (es : List Entry) → Step es (remove id es).1

pub data Reachable : List Entry → Type 0 where
  empty : Reachable []
  then_step : (es fs : List Entry) → Reachable es → Step es fs → Reachable fs

none_found :
    (email : String) (es : List Entry) → find? (has_email email) es ≡ none → entries_of email es ≡ 0
unfolding entries_of
none_found email [] h = refl
none_found email (e ∷ es) h = ground (arith, none_found email es)

-- An update that leaves the emails leaves the counts.
same_count :
    (email : String) (p : Entry → Bool) (f : Entry → Entry) (es : List Entry)
    → ((e : Entry) → (f e).email ≡ e.email)
    → entries_of email (update_where p f es) ≡ entries_of email es
unfolding entries_of
same_count email p f [] keep = refl
same_count email p f (e ∷ es) keep =
    let k : has_email email (f e) ≡ has_email email e = ap (λ m. same_text m email) (keep e) in
    elim (Bool-cases (p e)) [
      | inl hit ↦ ground (arith, k, same_count email p f es keep)
      | inr miss ↦ ground (arith, same_count email p f es keep)
    ]

fewer :
    (email : String) (p : Entry → Bool) (es : List Entry)
    → entries_of email (delete_where p es) ≤ entries_of email es
unfolding entries_of
fewer email p [] = ground arith
fewer email p (e ∷ es) = elim (Bool-cases (p e)) [
  | inl hit ↦ elim (Bool-cases (has_email email e)) [
    | inl mine ↦ ground (arith, fewer email p es)
    | inr other' ↦ ground (arith, fewer email p es)
  ]
  | inr miss ↦ elim (Bool-cases (has_email email e)) [
    | inl mine ↦ ground (arith, fewer email p es)
    | inr other' ↦ ground (arith, fewer email p es)
  ]
]

one_more :
    (email : String) (es : List Entry) (e : Entry)
    → entries_of email (es ++ e ∷ []) ≡ entries_of email es + (if has_email email e then 1 else 0)
unfolding entries_of
one_more email [] e = ground arith
one_more email (x ∷ es) e = elim (Bool-cases (has_email email x)) [
  | inl mine ↦ ground (arith, one_more email es e)
  | inr other' ↦ ground (arith, one_more email es e)
]

refreshed-email : (sub : Signup) (e : Entry) → (refreshed sub e).email ≡ e.email
unfolding refreshed
refreshed-email sub e = refl

signup-OneEach :
    (lower : String → String) (id : ℕ) (sub : Signup) (es : List Entry)
    → OneEach es
    → OneEach (signup lower id sub es).1
unfolding OneEach signup new_entry
signup-OneEach lower id sub es h email =
    let mine : String = email_of lower sub in
    elim (Option-cases (find? (has_email mine) es)) [
      | inr (e, found) ↦
          let same : (signup lower id sub es).1 ≡ update_where (has_email mine) (refreshed sub) es =
            ground arith in
          ground (
            arith,
            h email,
            ap (entries_of email) same,
            same_count email (has_email mine) (refreshed sub) es (refreshed-email sub),
          )
      | inl missing ↦
          let e : Entry = new_entry lower id sub in
          let same : (signup lower id sub es).1 ≡ es ++ e ∷ [] = ground arith in
          elim (Bool-cases (has_email email e)) [
            | inr other' ↦ ground (arith, h email, ap (entries_of email) same, one_more email es e)
            | inl own ↦
                let m : mine ≡ email = (eq_iff mine email).0 own in
                ground (
                  arith,
                  ap (entries_of email) same,
                  one_more email es e,
                  none_found mine es missing,
                  ap (λ x. entries_of x es) m,
                )
          ]
    ]

update_notes-OneEach :
    (id : ℕ) (text : Option String) (es : List Entry)
    → OneEach es
    → OneEach (update_notes id text es).1
unfolding OneEach update_notes
update_notes-OneEach id text es h email = elim (Option-cases (find? (λ e. e.id == id) es)) [
  | inl missing ↦ ground (arith, h email)
  | inr (e, found) ↦
      let same : (update_notes id text es).1 ≡ update_where (λ x. x.id == id) (with_notes text) es =
        ground arith in
      ground (
        arith,
        h email,
        ap (entries_of email) same,
        same_count email (λ x. x.id == id) (with_notes text) es (λ x. refl),
      )
]

remove-OneEach : (id : ℕ) (es : List Entry) → OneEach es → OneEach (remove id es).1
unfolding OneEach remove
remove-OneEach id es h email = elim (Option-cases (find? (λ e. e.id == id) es)) [
  | inl missing ↦ ground (arith, h email)
  | inr (e, found) ↦
      let same : (remove id es).1 ≡ delete_where (λ x. x.id == id) es = ground arith in
      ground (arith, h email, ap (entries_of email) same, fewer email (λ x. x.id == id) es)
]

step-OneEach : (es fs : List Entry) → Step es fs → OneEach es → OneEach fs
step-OneEach _ _ (signs_up lower id sub es) h = signup-OneEach lower id sub es h
step-OneEach _ _ (notes_down id text es) h = update_notes-OneEach id text es h
step-OneEach _ _ (removes id es) h = remove-OneEach id es h

-- In every list that sign-ups, notes and removals reach from the empty one, in any order, an email
-- has at most one entry.
pub Reachable-OneEach : (es : List Entry) → Reachable es → OneEach es
unfolding OneEach entries_of
Reachable-OneEach es empty = λ email. omega arith
Reachable-OneEach es (then_step before after r step) =
    step-OneEach before after step (Reachable-OneEach before r)
