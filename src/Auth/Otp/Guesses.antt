-- ===== src/Auth/Otp/Guesses.antt =====
-- Wrong guesses at a code, one after the other.
use msk_back.Base.{
  ℕ, String, ◌≡◌, refl, inl, inr, Bool, true, false, Option, none, some, List, [], ◌∷◌, arith, ltb,
  ◌==◌, if◌then◌else◌, Bool-cases, All, filter, update_where, All-map,
}
use msk_back.Base.Action.{ok}
use mathlib.Core.Option
use msk_back.Auth.Otp.{Purpose, OtpCode, OtpDb, is_live, later, latest, count_attempt, consume}

module _ (p q : OtpCode → Bool) (f : OtpCode → OtpCode) (keep : (c : OtpCode) → p (f c) ≡ p c)
    (same : (c : OtpCode) → (f c).created_at ≡ c.created_at) where
  abbrev updated : OtpCode → OtpCode
  updated c = if q c then f c else c

  p-updated : (c : OtpCode) → p (updated c) ≡ p c
  p-updated c = ground (arith, keep c)

  created_at-updated : (c : OtpCode) → (updated c).created_at ≡ c.created_at
  created_at-updated c = elim (Bool-cases (q c)) [
    | inl hit ↦ ground (arith, same c)
    | inr miss ↦ ground arith
  ]

  later-updated :
      (c : OtpCode) (o : Option OtpCode)
      → later (updated c) (Option.map updated o) ≡ updated (later c o)
  later-updated c none = refl
  later-updated c (some d) = elim (Bool-cases (ltb c.created_at d.created_at)) [
    | inl newer ↦ ground (arith, created_at-updated c, created_at-updated d)
    | inr older ↦ ground (arith, created_at-updated c, created_at-updated d)
  ]

  latest-update_where :
      (cs : List OtpCode)
      → latest (filter p (update_where q f cs)) ≡ Option.map updated (latest (filter p cs))
  unfolding latest
  latest-update_where [] = refl
  latest-update_where (c ∷ cs) = elim (Bool-cases (p c)) [
    | inl kept ↦
        ground (arith, p-updated c, later-updated c (latest (filter p cs)), latest-update_where cs)
    | inr dropped ↦ ground (arith, p-updated c, latest-update_where cs)
  ]

-- At time `t`, `consume` finds a code of this hash for the destination and the purpose.
abbrev pub Finds : ℕ → String → String → Purpose → OtpDb → Type 0
Finds t hash destination purpose db =
    (c : OtpCode) × (latest (filter (is_live t destination purpose) db.codes) ≡ some c)
    × (c.code_hash ≡ hash)

-- The state after the guesses, one after the other, each at its own time.
abbrev pub after_guesses :
    (String → String → Bool) → String → Purpose → List (ℕ × String) → OtpDb → OtpDb
after_guesses matches destination purpose [] db = db
after_guesses matches destination purpose ((t, code) ∷ guesses) db =
    after_guesses matches destination purpose guesses
      (consume matches t destination purpose code db).1

wrong-Finds :
    (matches : String → String → Bool) (destination : String) (purpose : Purpose) (t t' : ℕ)
    (code hash : String) (db : OtpDb)
    → matches hash code ≡ false
    → Finds t hash destination purpose db
    → Finds t' hash destination purpose db
    → Finds t' hash destination purpose (consume matches t destination purpose code db).1
unfolding consume is_live
wrong-Finds matches destination purpose t t' code hash db wrong (c, found, same)
      (d, found', same') =
    let f = count_attempt c.attempts in
    let e =
      updated (is_live t' destination purpose) (λ x. x.id == c.id) f (λ x. refl) (λ x. refl) d in
    (
      e,
      ground (
        arith,
        latest-update_where (is_live t' destination purpose) (λ x. x.id == c.id) f (λ x. refl)
            (λ x. refl) db.codes,
      ),
      ground arith,
    )

guessed-Finds :
    (matches : String → String → Bool) (destination : String) (purpose : Purpose) (hash : String)
    (guesses : List (ℕ × String)) (t : ℕ) (db : OtpDb)
    → All (λ g. Finds g.0 hash destination purpose db × (matches hash g.1 ≡ false)) guesses
    → Finds t hash destination purpose db
    → Finds t hash destination purpose (after_guesses matches destination purpose guesses db)
guessed-Finds matches destination purpose hash [] t db h there = there
guessed-Finds matches destination purpose hash ((t', code) ∷ guesses) t db h there =
    let step : (t₀ : ℕ)
        → Finds t₀ hash destination purpose db
        → Finds t₀ hash destination purpose (consume matches t' destination purpose code db).1 =
      λ t₀ k. wrong-Finds matches destination purpose t' t₀ code hash db h.0.1 h.0.0 k in
    guessed-Finds matches destination purpose hash guesses t
      (consume matches t' destination purpose code db).1
      (All-map _ _ guesses (λ g k. (step g.0 k.0, k.1)) h.1) (step t there)

-- However many wrong guesses were made at a code, each while the code was the one that `consume`
-- finds, the right code is still accepted, as long as it is found.
pub guesses-accepted :
    (matches : String → String → Bool) (destination : String) (purpose : Purpose) (hash : String)
    (guesses : List (ℕ × String)) (t : ℕ) (code : String) (db : OtpDb)
    → All (λ g. Finds g.0 hash destination purpose db × (matches hash g.1 ≡ false)) guesses
    → Finds t hash destination purpose db
    → matches hash code ≡ true
    → (c : OtpCode) × ((consume matches t destination purpose code
          (after_guesses matches destination purpose guesses db)).0
        ≡ ok c)
unfolding consume
guesses-accepted matches destination purpose hash guesses t code db wrong there right =
    let (c, found, same) =
      guessed-Finds matches destination purpose hash guesses t db wrong there in
    (c, ground arith)
