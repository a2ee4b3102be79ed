-- ===== src/Base/Members.antt =====
-- Membership in a table, as what every row's property gives.
use mathlib.Core.Path.{◌≡◌}
use mathlib.Core.Bool.{Bool, true}
use mathlib.Core.Logic.{inl, inr}
use mathlib.Core.Option.{some}
use mathlib.Core.List.{List, [], ◌∷◌}
use msk_back.Base.Tests.{Bool-cases}
use msk_back.Base.Lists.{All, filter, find?, All-filter, All-find?}

module _ {ℓ} {A : Type ℓ} where
  -- `x` is a row of the table: whatever holds of all rows holds of it.
  abbrev pub In : A → List A → Type (ℓ ⊔ 1)
  In x xs = (P : A → Type 0) → All P xs → P x

  pub All-intro : (P : A → Type 0) (xs : List A) → ((x : A) → In x xs → P x) → All P xs
  All-intro P [] h = tt
  All-intro P (x ∷ xs) h = (h x (λ Q k. k.0), All-intro P xs (λ y i. h y (λ Q k. i Q k.1)))

  All-unfilter :
      (P : A → Type 0) (p : A → Bool) (xs : List A)
      → All P (filter p xs)
      → All (λ x. p x ≡ true → P x) xs
  All-unfilter P p [] h = tt
  All-unfilter P p (x ∷ xs) h = elim (Bool-cases (p x)) [
    | inl kept ↦
        let k : All P (x ∷ filter p xs) = rw kept at h in (λ e. k.0, All-unfilter P p xs k.1)
    | inr dropped ↦ (λ e. cc, All-unfilter P p xs (rw dropped at h))
  ]

  pub In-filter : (p : A → Bool) (xs : List A) (x : A) → In x xs → p x ≡ true → In x (filter p xs)
  In-filter p xs x i e P h = i (λ y. p y ≡ true → P y) (All-unfilter P p xs h) e

  All-filter_holds : (p : A → Bool) (xs : List A) → All (λ x. p x ≡ true) (filter p xs)
  All-filter_holds p [] = tt
  All-filter_holds p (x ∷ xs) = elim (Bool-cases (p x)) [
    | inl kept ↦ rw kept (kept, All-filter_holds p xs)
    | inr dropped ↦ rw dropped (All-filter_holds p xs)
  ]

  pub In-of_filter :
      (p : A → Bool) (xs : List A) (x : A) → In x (filter p xs) → In x xs × (p x ≡ true)
  In-of_filter p xs x i = (λ P h. i P (All-filter P p xs h), i _ (All-filter_holds p xs))

  pub In-find? : (p : A → Bool) (xs : List A) (x : A) → find? p xs ≡ some x → In x xs
  In-find? p xs x e P h = All-find? P p xs x h e
