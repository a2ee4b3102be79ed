-- ===== src/Base/Rows.antt =====
-- Searches of a table after it changed.
use mathlib.Core.Path.{◌≡◌, refl, ap}
use mathlib.Core.Bool.{Bool, true, false}
use mathlib.Core.Option.{some, none}
use mathlib.Core.Logic.{inl, inr}
use mathlib.Core.List.{List, [], ◌∷◌, ◌++◌}
use native.Mathlib.Omega.{arith}
use msk_back.Base.Tests.{Bool-cases}
use msk_back.Base.Lists.{find?, filter, any, update_where, delete_where, All}

module _ {ℓ} {A : Type ℓ} where
  -- A row that was found and meets a second condition.
  pub any-find? :
      (p q : A → Bool) (xs : List A) (x : A) → find? p xs ≡ some x → q x ≡ true → any q xs ≡ true
  any-find? p q [] x e h = cc
  any-find? p q (y ∷ xs) x e h = elim (Bool-cases (p y)) [
    | inl hit ↦ let same : y ≡ x = ground arith in ground (arith, ap q same)
    | inr miss ↦ ground (arith, any-find? p q xs x)
  ]

  -- An update that keeps a condition keeps that a row meets it.
  pub any-update_where :
      (p q : A → Bool) (f : A → A) (xs : List A)
      → ((x : A) → q x ≡ true → q (f x) ≡ true)
      → any q xs ≡ true
      → any q (update_where p f xs) ≡ true
  any-update_where p q f [] keep h = h
  any-update_where p q f (x ∷ xs) keep h = elim (Bool-cases (q x)) [
    | inl hit ↦ ground (arith, keep x hit)
    | inr miss ↦ ground (arith, any-update_where p q f xs keep)
  ]

  -- The rows of a condition that excludes what is updated.
  pub filter-update_where :
      (p q : A → Bool) (f : A → A) (xs : List A)
      → ((x : A) → p x ≡ true → q x ≡ false)
      → ((x : A) → p x ≡ true → q (f x) ≡ false)
      → filter q (update_where p f xs) ≡ filter q xs
  filter-update_where p q f [] out out' = refl
  filter-update_where p q f (x ∷ xs) out out' = elim (Bool-cases (p x)) [
    | inl hit ↦ ground (arith, out x hit, out' x hit, filter-update_where p q f xs out out')
    | inr miss ↦ elim (Bool-cases (q x)) [
      | inl kept ↦ ground (arith, filter-update_where p q f xs out out')
      | inr dropped ↦ ground (arith, filter-update_where p q f xs out out')
    ]
  ]

  pub filter-delete_where :
      (p q : A → Bool) (xs : List A)
      → ((x : A) → p x ≡ true → q x ≡ false)
      → filter q (delete_where p xs) ≡ filter q xs
  filter-delete_where p q [] out = refl
  filter-delete_where p q (x ∷ xs) out = elim (Bool-cases (p x)) [
    | inl hit ↦ ground (arith, out x hit, filter-delete_where p q xs out)
    | inr miss ↦ elim (Bool-cases (q x)) [
      | inl kept ↦ ground (arith, filter-delete_where p q xs out)
      | inr dropped ↦ ground (arith, filter-delete_where p q xs out)
    ]
  ]

  -- Nothing is left of what was deleted.
  pub filter-delete_where_same : (p : A → Bool) (xs : List A) → filter p (delete_where p xs) ≡ []
  filter-delete_where_same p [] = refl
  filter-delete_where_same p (x ∷ xs) = elim (Bool-cases (p x)) [
    | inl hit ↦ ground (arith, filter-delete_where_same p xs)
    | inr miss ↦ ground (arith, filter-delete_where_same p xs)
  ]

  pub delete_where-none : (p : A → Bool) (xs : List A) → any p xs ≡ false → delete_where p xs ≡ xs
  delete_where-none p [] h = refl
  delete_where-none p (x ∷ xs) h = ground (arith, delete_where-none p xs)

  -- A row that the condition leaves out, at the end.
  pub filter-append_out :
      (p : A → Bool) (xs : List A) (x : A) → p x ≡ false → filter p (xs ++ x ∷ []) ≡ filter p xs
  filter-append_out p [] x out = ground arith
  filter-append_out p (y ∷ ys) x out = elim (Bool-cases (p y)) [
    | inl kept ↦ ground (arith, filter-append_out p ys x out)
    | inr dropped ↦ ground (arith, filter-append_out p ys x out)
  ]

  pub append_nil : (xs : List A) → xs ++ [] ≡ xs
  append_nil [] = refl
  append_nil (x ∷ xs) = ap (λ ys. x ∷ ys) (append_nil xs)

  pub any-update_where_same :
      (p q : A → Bool) (f : A → A) (xs : List A)
      → ((x : A) → q (f x) ≡ q x)
      → any q (update_where p f xs) ≡ any q xs
  any-update_where_same p q f [] keep = refl
  any-update_where_same p q f (x ∷ xs) keep =
      ground (arith, keep x, any-update_where_same p q f xs keep)

  pub any-delete_where :
      (p q : A → Bool) (xs : List A)
      → ((x : A) → p x ≡ true → q x ≡ false)
      → any q (delete_where p xs) ≡ any q xs
  any-delete_where p q [] out = refl
  any-delete_where p q (x ∷ xs) out = elim (Bool-cases (p x)) [
    | inl hit ↦ ground (arith, out x hit, any-delete_where p q xs out)
    | inr miss ↦ ground (arith, any-delete_where p q xs out)
  ]

  pub any-delete_where_same : (p : A → Bool) (xs : List A) → any p (delete_where p xs) ≡ false
  any-delete_where_same p [] = refl
  any-delete_where_same p (x ∷ xs) = elim (Bool-cases (p x)) [
    | inl hit ↦ ground (arith, any-delete_where_same p xs)
    | inr miss ↦ ground (arith, any-delete_where_same p xs)
  ]

  -- What is left of a table has what the rows outside the condition have.
  pub All-delete_where {κ} :
      (P : A → Type κ) (p : A → Bool) (xs : List A)
      → All (λ x. p x ≡ false → P x) xs
      → All P (delete_where p xs)
  All-delete_where P p [] h = tt
  All-delete_where P p (x ∷ xs) h = elim (Bool-cases (p x)) [
    | inl hit ↦ ground (arith, All-delete_where P p xs h.1)
    | inr miss ↦ ground (arith, h.0 miss, All-delete_where P p xs h.1)
  ]

  pub any-none_found : (p : A → Bool) (xs : List A) → find? p xs ≡ none → any p xs ≡ false
  any-none_found p [] e = refl
  any-none_found p (x ∷ xs) e = ground (arith, any-none_found p xs)

  -- An update that overwrites the one before it under the same condition.
  pub update_where_again :
      (p : A → Bool) (f g : A → A) (xs : List A)
      → ((x : A) → p (f x) ≡ p x)
      → ((x : A) → g (f x) ≡ g x)
      → update_where p g (update_where p f xs) ≡ update_where p g xs
  update_where_again p f g [] keep over = refl
  update_where_again p f g (x ∷ xs) keep over =
      ground (arith, keep x, over x, update_where_again p f g xs keep over)
