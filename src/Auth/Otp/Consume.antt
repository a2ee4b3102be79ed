-- ===== src/Auth/Otp/Consume.antt =====
-- Calls of `consume` that follow each other.
use msk_back.Base.{
  ℕ, String, ◌≡◌, sym, subst, inl, inr, Bool, true, false, not, ◌&&◌, some, List, [], ◌∷◌, arith,
  ltb, ◌==◌, is_some, Bool-cases, Option-cases, All, filter, update_where, In, In-of_filter,
}
use msk_back.Base.Action.{ok}
use msk_back.Auth.Otp.{Purpose, OtpCode, OtpDb, is_live, latest, mark_consumed, consume}

latest-In : (cs : List OtpCode) (c : OtpCode) → latest cs ≡ some c → In c cs
unfolding latest
latest-In [] c e P h = cc
latest-In (d ∷ cs) c e P h = elim (Option-cases (latest cs)) [
  | inl missing ↦ let same : d ≡ c = ground arith in subst P same h.0
  | inr (d', found) ↦ elim (Bool-cases (ltb d.created_at d'.created_at)) [
    | inl newer ↦ let same : d' ≡ c = ground arith in subst P same (latest-In cs d' found P h.1)
    | inr older ↦ let same : d ≡ c = ground arith in subst P same h.0
  ]
]

-- Every row of the id is consumed.
All-consumed :
    (now id : ℕ) (cs : List OtpCode)
    → All
        (λ c. (not (is_some c.consumed_at) && c.id == id) ≡ false)
        (update_where (λ c. c.id == id) (mark_consumed now) cs)
All-consumed now id [] = tt
All-consumed now id (c ∷ cs) = elim (Bool-cases (c.id == id)) [
  | inl hit ↦ (ground arith, All-consumed now id cs)
  | inr miss ↦ (ground arith, All-consumed now id cs)
]

-- After a call that consumed a code, the next call that consumes one, whatever is sent and whenever,
-- consumes a code of another id.
pub consume-once :
    (matches : String → String → Bool) (t t' : ℕ) (destination destination' : String)
    (purpose purpose' : Purpose) (code code' : String) (db : OtpDb) (c c' : OtpCode)
    (db' db'' : OtpDb)
    → consume matches t destination purpose code db ≡ (ok c, db')
    → consume matches t' destination' purpose' code' db' ≡ (ok c', db'')
    → (c'.id == c.id) ≡ false
unfolding consume is_live
consume-once matches t t' destination destination' purpose purpose' code code' db c c' db' db''
      first second =
    elim (Option-cases (latest (filter (is_live t destination purpose) db.codes))) [
      | inl missing ↦ ground arith
      | inr (d, found) ↦ elim (Bool-cases (matches d.code_hash code)) [
        | inr wrong ↦ ground arith
        | inl right ↦
            elim (Option-cases (latest (filter (is_live t' destination' purpose') db'.codes))) [
              | inl missing' ↦ ground arith
              | inr (d', found') ↦ elim (Bool-cases (matches d'.code_hash code')) [
                | inr wrong' ↦ ground arith
                | inl right' ↦
                    let same : d ≡ c = ground arith in
                    let same' : d' ≡ c' = ground arith in
                    let codes : db'.codes
                        ≡ update_where (λ x. x.id == d.id) (mark_consumed t) db.codes =
                      ground arith in
                    let there : In d' db'.codes × (is_live t' destination' purpose' d' ≡ true) =
                      In-of_filter (is_live t' destination' purpose') db'.codes d'
                        (latest-In _ d' found') in
                    let spent : (not (is_some d'.consumed_at) && d'.id == d.id) ≡ false =
                      there.0 (λ x. (not (is_some x.consumed_at) && x.id == d.id) ≡ false)
                        (subst (All (λ x. (not (is_some x.consumed_at) && x.id == d.id) ≡ false))
                          (sym codes) (All-consumed t d.id db.codes)) in
                    let live : is_live t' destination' purpose' d' ≡ true = there.1 in
                    let unspent : is_some d'.consumed_at ≡ false = ground arith in ground arith
              ]
            ]
      ]
    ]
