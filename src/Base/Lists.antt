-- ===== src/Base/Lists.antt =====
-- Tables as lists of rows, with Boolean conditions: the first row that meets one, all that do, and
-- an update or a deletion where it holds.
use Prim.Native.Nat.{ℕ, suc, ◌+◌}
use mathlib.Core.Path.{◌≡◌, refl, ap, subst}
use mathlib.Core.Bool.{Bool, true, false, ◌&&◌, ◌||◌}
use mathlib.Core.Option.{Option, none, some}
use mathlib.Core.Logic.{inl, inr}
use mathlib.Core.List.{List, [], ◌∷◌, ◌++◌, map}
use native.Mathlib.Omega.{arith}
use msk_back.Base.Tests.{Bool-cases, if◌then◌else◌}

module _ {ℓ κ} {A : Type ℓ} (P : A → Type κ) where
  abbrev pub All : List A → Type κ
  All [] = Unit
  All (x ∷ xs) = P x × All xs

module _ {ℓ} {A : Type ℓ} where
  abbrev pub length : List A → ℕ
  length [] = 0
  length (x ∷ xs) = suc (length xs)

  abbrev pub find? : (A → Bool) → List A → Option A
  find? p [] = none
  find? p (x ∷ xs) = if p x then some x else find? p xs

  abbrev pub filter : (A → Bool) → List A → List A
  filter p [] = []
  filter p (x ∷ xs) = if p x then x ∷ filter p xs else filter p xs

  abbrev pub any : (A → Bool) → List A → Bool
  any p [] = false
  any p (x ∷ xs) = p x || any p xs

  abbrev pub all : (A → Bool) → List A → Bool
  all p [] = true
  all p (x ∷ xs) = p x && all p xs

  abbrev pub update_where : (A → Bool) → (A → A) → List A → List A
  update_where p f [] = []
  update_where p f (x ∷ xs) = (if p x then f x else x) ∷ update_where p f xs

  abbrev pub delete_where : (A → Bool) → List A → List A
  delete_where p [] = []
  delete_where p (x ∷ xs) = if p x then delete_where p xs else x ∷ delete_where p xs

  pub length-append : (xs ys : List A) → length (xs ++ ys) ≡ length xs + length ys
  length-append [] ys = omega arith
  length-append (x ∷ xs) ys = omega (arith, length-append xs ys)

  pub length-update_where :
      (p : A → Bool) (f : A → A) (xs : List A) → length (update_where p f xs) ≡ length xs
  length-update_where p f [] = refl
  length-update_where p f (x ∷ xs) = ap suc (length-update_where p f xs)

  -- The row found meets the condition.
  pub find?_sound : (p : A → Bool) (xs : List A) (x : A) → find? p xs ≡ some x → p x ≡ true
  find?_sound p [] x e = cc
  find?_sound p (y ∷ xs) x e = ground (arith, find?_sound p xs x)

  pub any_none : (p : A → Bool) (xs : List A) → any p xs ≡ false → All (λ x. p x ≡ false) xs
  any_none p [] e = tt
  any_none p (x ∷ xs) e = (ground arith, any_none p xs (ground arith))

  -- Where none is found, no row meets it.
  pub find?-none : (p : A → Bool) (xs : List A) → find? p xs ≡ none → All (λ x. p x ≡ false) xs
  find?-none p [] e = tt
  find?-none p (x ∷ xs) e = (ground arith, find?-none p xs (ground arith))

  pub find?-filter :
      (p q : A → Bool) (xs : List A) → find? q (filter p xs) ≡ find? (λ x. p x && q x) xs
  find?-filter p q [] = refl
  find?-filter p q (x ∷ xs) = ground (arith, find?-filter p q xs)

  pub any-append : (p : A → Bool) (xs ys : List A) → any p (xs ++ ys) ≡ (any p xs || any p ys)
  any-append p [] ys = refl
  any-append p (x ∷ xs) ys = ground (arith, any-append p xs ys)

module _ {ℓ κ} {A : Type ℓ} (P : A → Type κ) where
  pub All-append : (xs ys : List A) → All P xs → All P ys → All P (xs ++ ys)
  All-append [] ys h k = k
  All-append (x ∷ xs) ys h k = (h.0, All-append xs ys h.1 k)

  pub All-update_where :
      (p : A → Bool) (f : A → A) (xs : List A)
      → ((x : A) → P x → P (f x))
      → All P xs
      → All P (update_where p f xs)
  All-update_where p f [] k h = tt
  All-update_where p f (x ∷ xs) k h = (ground (arith, k x h.0), All-update_where p f xs k h.1)

module _ {ℓ κ} {A : Type ℓ} (P : A → Type κ) where
  pub All-of : ((x : A) → P x) → (xs : List A) → All P xs
  All-of h [] = tt
  All-of h (x ∷ xs) = (h x, All-of h xs)

  pub All-filter : (p : A → Bool) (xs : List A) → All P xs → All P (filter p xs)
  All-filter p [] h = tt
  All-filter p (x ∷ xs) h = ground (arith, All-filter p xs h.1)

  -- What holds of every row holds of the row found.
  pub All-find? : (p : A → Bool) (xs : List A) (x : A) → All P xs → find? p xs ≡ some x → P x
  All-find? p [] x h e = cc
  All-find? p (y ∷ xs) x h e = elim (Bool-cases (p y)) [
    | inl found ↦ let same : y ≡ x = ground arith in subst P same h.0
    | inr later ↦ All-find? p xs x h.1 (rw later at e)
  ]

pub All-map {ℓ κ μ} :
    {A : Type ℓ} (P : A → Type κ) (Q : A → Type μ) (xs : List A)
    → ((x : A) → P x → Q x)
    → All P xs
    → All Q xs
All-map P Q [] k h = tt
All-map P Q (x ∷ xs) k h = (k x h.0, All-map P Q xs k h.1)

module _ {ℓ κ μ} {A : Type ℓ} (P : A → Type κ) (Q : A → Type μ) where
  pub All-both : (xs : List A) → All P xs → All Q xs → All (λ x. P x × Q x) xs
  All-both [] h k = tt
  All-both (x ∷ xs) h k = ((h.0, k.0), All-both xs h.1 k.1)

module _ {ℓ κ} {A : Type ℓ} (P : A → Type κ) where
  pub All-updated :
      (p : A → Bool) (f : A → A) (xs : List A)
      → All (λ x. P (if p x then f x else x)) xs
      → All P (update_where p f xs)
  All-updated p f [] h = tt
  All-updated p f (x ∷ xs) h = (h.0, All-updated p f xs h.1)

  -- An update that keeps `P` where it is made.
  pub All-update_where_if :
      (p : A → Bool) (f : A → A) (xs : List A)
      → All (λ x. P x × (p x ≡ true → P (f x))) xs
      → All P (update_where p f xs)
  All-update_where_if p f [] h = tt
  All-update_where_if p f (x ∷ xs) h = (ground arith, All-update_where_if p f xs h.1)

-- What holds of the image of every row holds of the mapped table.
pub All-map_of {ℓ κ μ} :
    {A : Type ℓ} {B : Type κ} (P : B → Type μ) (f : A → B) (xs : List A)
    → All (λ x. P (f x)) xs
    → All P (map f xs)
All-map_of P f [] h = tt
All-map_of P f (x ∷ xs) h = (h.0, All-map_of P f xs h.1)

-- Updates on tables, compared.
module _ {ℓ} {A : Type ℓ} where
  pub update_where-append :
      (p : A → Bool) (f : A → A) (xs ys : List A)
      → update_where p f (xs ++ ys) ≡ update_where p f xs ++ update_where p f ys
  update_where-append p f [] ys = refl
  update_where-append p f (x ∷ xs) ys = rw (update_where-append p f xs ys)

  -- Conditions that agree on the rows give one update.
  pub update_where_congr :
      (p q : A → Bool) (f : A → A) (xs : List A)
      → All (λ x. p x ≡ q x) xs
      → update_where p f xs ≡ update_where q f xs
  update_where_congr p q f [] h = refl
  update_where_congr p q f (x ∷ xs) h = rw (h.0, update_where_congr p q f xs h.1)

  pub update_where_none :
      (p : A → Bool) (f : A → A) (xs : List A)
      → All (λ x. p x ≡ false) xs
      → update_where p f xs ≡ xs
  update_where_none p f [] h = refl
  update_where_none p f (x ∷ xs) h = rw (h.0, update_where_none p f xs h.1)

  -- Two updates whose conditions exclude each other are one.
  pub update_where_twice :
      (p q : A → Bool) (f : A → A) (xs : List A)
      → ((x : A) → q (f x) ≡ q x)
      → All (λ x. (p x && q x) ≡ false) xs
      → update_where q f (update_where p f xs) ≡ update_where (λ x. p x || q x) f xs
  update_where_twice p q f [] keep h = refl
  update_where_twice p q f (x ∷ xs) keep h =
      ground (arith, h.0, keep x, update_where_twice p q f xs keep h.1)

  -- An update is undone by one under the same condition.
  pub update_where_undo :
      (p : A → Bool) (f g : A → A) (xs : List A)
      → ((x : A) → p (f x) ≡ p x)
      → ((x : A) → g (f x) ≡ x)
      → update_where p g (update_where p f xs) ≡ xs
  update_where_undo p f g [] keep back = refl
  update_where_undo p f g (x ∷ xs) keep back =
      ground (arith, keep x, back x, update_where_undo p f g xs keep back)

  -- An update that keeps the condition of a search changes the row that it finds.
  pub find?-update_where :
      (p q : A → Bool) (f : A → A) (xs : List A)
      → ((x : A) → p (f x) ≡ p x)
      → find? p (update_where q f xs)
        ≡ elim (find? p xs) [ none ↦ none | some x ↦ some (if q x then f x else x) ]
  find?-update_where p q f [] keep = refl
  find?-update_where p q f (x ∷ xs) keep = elim (Bool-cases (p x)) [
    | inl hit ↦ ground (arith, keep x)
    | inr miss ↦ ground (arith, keep x, find?-update_where p q f xs keep)
  ]

  pub find?-append :
      (p : A → Bool) (xs ys : List A)
      → find? p (xs ++ ys) ≡ elim (find? p xs) [ some x ↦ some x | none ↦ find? p ys ]
  find?-append p [] ys = refl
  find?-append p (x ∷ xs) ys = ground (arith, find?-append p xs ys)

  pub All-of_all : (p : A → Bool) (xs : List A) → all p xs ≡ true → All (λ x. p x ≡ true) xs
  All-of_all p [] h = tt
  All-of_all p (x ∷ xs) h = elim (Bool-cases (p x)) [
    | inl holds ↦ (holds, All-of_all p xs (ground arith))
    | inr fails ↦ ground arith
  ]

  pub filter-append :
      (p : A → Bool) (xs ys : List A) → filter p (xs ++ ys) ≡ filter p xs ++ filter p ys
  filter-append p [] ys = refl
  filter-append p (x ∷ xs) ys = elim (Bool-cases (p x)) [
    | inl kept ↦ ground (arith, filter-append p xs ys)
    | inr dropped ↦ ground (arith, filter-append p xs ys)
  ]
