-- ===== src/Auth/Tokens/Replay.antt =====
-- Refreshes with a token that was used or revoked.
use msk_back.Base.{
  ℕ, String, ◌≡◌, refl, inl, inr, Bool, true, Option, none, some, List, [], ◌∷◌, ◌++◌, arith, ◌==◌,
  ==_refl, is_some, Bool-cases, Option-cases, find?, any, update_where, find?_sound,
  find?-update_where, find?-append,
}
use msk_back.Base.Action.{Result, unauthorized, ok, err}
use msk_back.Auth.Tokens.{
  RefreshToken, Draw, Issued, has_hash, new_token, issue, mark_revoked, is_stale, refresh,
  is_revocable, revoke,
}

-- The answer to a token that is revoked.
abbrev pub Refused : List RefreshToken → Result Issued × List RefreshToken → Type 0
Refused rs r = r ≡ (err (unauthorized "Invalid refresh token"), rs)

-- The first row of the hash is revoked, or there is none.
abbrev is_spent : Option RefreshToken → Bool
is_spent none = true
is_spent (some r) = is_some r.revoked_at

spent-Refused :
    (hash_of : String → String) (ttl t : ℕ) (new : Draw) (token : String) (rs : List RefreshToken)
    → is_spent (find? (has_hash (hash_of token)) rs) ≡ true
    → Refused rs (refresh hash_of ttl t new token rs)
unfolding refresh is_stale
spent-Refused hash_of ttl t new token rs spent =
    elim (Option-cases (find? (has_hash (hash_of token)) rs)) [
      | inl missing ↦ ground arith
      | inr (r, found) ↦ ground arith
    ]

-- A token is good for one refresh: after one that succeeded, the next refresh with the same token is
-- refused at any time and changes nothing.
pub refresh-Refused :
    (hash_of : String → String) (ttl t t' : ℕ) (new new' : Draw) (token : String)
    (rs rs' : List RefreshToken) (i : Issued)
    → refresh hash_of ttl t new token rs ≡ (ok i, rs')
    → Refused rs' (refresh hash_of ttl t' new' token rs')
unfolding refresh issue
refresh-Refused hash_of ttl t t' new new' token rs rs' i done =
    elim (Option-cases (find? (has_hash (hash_of token)) rs)) [
      | inl missing ↦ ground arith
      | inr (r, found) ↦ elim (Bool-cases (is_stale t r)) [
        | inl stale ↦ ground arith
        | inr fresh ↦
            let rows = update_where (λ x. x.id == r.id) (mark_revoked t) rs in
            elim (Bool-cases (any (has_hash (hash_of new.token)) rows)) [
              | inl taken ↦ ground arith
              | inr free ↦
                  let written : rs' ≡ rows ++ new_token hash_of ttl t new r.user_id ∷ [] =
                    ground arith in
                  spent-Refused hash_of ttl t' new' token rs' (
                    ground (
                      arith,
                      ==_refl r.id,
                      find?-update_where (has_hash (hash_of token)) (λ x. x.id == r.id)
                          (mark_revoked t) rs (λ x. refl),
                      find?-append (has_hash (hash_of token)) rows
                          (new_token hash_of ttl t new r.user_id ∷ []),
                    ))
            ]
      ]
    ]

-- After the owner of a stored token revoked it, a refresh with it is refused at any time and changes
-- nothing.
pub revoke-Refused :
    (hash_of : String → String) (ttl t t' user_id : ℕ) (new : Draw) (token : String)
    (rs : List RefreshToken) (r : RefreshToken)
    → find? (has_hash (hash_of token)) rs ≡ some r
    → (r.user_id == user_id) ≡ true
    → Refused
        (revoke hash_of t user_id token rs).1
        (refresh hash_of ttl t' new token (revoke hash_of t user_id token rs).1)
unfolding revoke
revoke-Refused hash_of ttl t t' user_id new token rs r found own =
    spent-Refused hash_of ttl t' new token (revoke hash_of t user_id token rs).1 (
      ground (
        arith,
        find?_sound (has_hash (hash_of token)) rs r found,
        find?-update_where (has_hash (hash_of token)) (is_revocable user_id (hash_of token))
            (mark_revoked t) rs (λ x. refl),
      ))
