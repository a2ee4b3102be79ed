-- ===== src/Auth/Tokens.antt =====
-- src/modules/auth/token.service.ts: refresh tokens. `hash_of` is SHA-256 of the token's text; the
-- access token and the profile that the answer carries are not modelled.
pub mod Replay
use msk_back.Base.{
  ℕ, ◌+◌, ◌*◌, String, Bool, not, ◌&&◌, ◌||◌, Option, none, some, List, [], ◌∷◌, ◌++◌, ltb, ◌==◌,
  is_some, find?, any, update_where,
}
use msk_back.Base.Action.{
  ◌>>=◌, ◌>>◌, Action, pure, gets, or_throw, throw_if, modify, unauthorized, internal_error,
}
use msk_back.Base.Text.{same_text}
use msk_back.Dates.{day_ms}

pub record RefreshToken : Type 0 where
  pub id : ℕ
  pub user_id : ℕ
  pub token_hash : String
  pub expires_at : ℕ
  pub revoked_at : Option ℕ

-- What `issue` draws: the row's id and the token's text, 48 random bytes.
pub record Draw : Type 0 where
  pub id : ℕ
  pub token : String

pub record Issued : Type 0 where
  pub user_id : ℕ
  pub refresh_token : String

abbrev pub has_hash : String → RefreshToken → Bool
has_hash hash r = same_text r.token_hash hash

unfoldable pub new_token : (String → String) → ℕ → ℕ → Draw → ℕ → RefreshToken
new_token hash_of ttl_days now new user_id = record {
  id = new.id;
  user_id = user_id;
  token_hash = hash_of new.token;
  expires_at = now + ttl_days * day_ms;
  revoked_at = none;
}

-- The hash is unique in the table.
unfoldable pub issue : (String → String) → ℕ → ℕ → Draw → ℕ → Action (List RefreshToken) Issued
issue hash_of ttl_days now new user_id = do
  throw_if (← gets (any (has_hash (hash_of new.token))))
      (internal_error "Unique constraint failed on the fields: (`tokenHash`)")
  modify (λ rs. rs ++ new_token hash_of ttl_days now new user_id ∷ [])
  pure (record { user_id = user_id; refresh_token = new.token })

abbrev pub mark_revoked : ℕ → RefreshToken → RefreshToken
mark_revoked now r = record r { revoked_at = some now }

-- `stored.revokedAt || stored.expiresAt < new Date()`
unfoldable pub is_stale : ℕ → RefreshToken → Bool
is_stale now r = is_some r.revoked_at || ltb r.expires_at now

unfoldable pub refresh :
    (String → String) → ℕ → ℕ → Draw → String → Action (List RefreshToken) Issued
refresh hash_of ttl_days now new token = do
  r ← or_throw (← gets (find? (has_hash (hash_of token)))) (unauthorized "Invalid refresh token")
  throw_if (is_stale now r) (unauthorized "Invalid refresh token")
  modify (update_where (λ x. x.id == r.id) (mark_revoked now))
  issue hash_of ttl_days now new r.user_id

abbrev pub is_revocable : ℕ → String → RefreshToken → Bool
is_revocable user_id hash r = r.user_id == user_id && has_hash hash r && not (is_some r.revoked_at)

unfoldable pub revoke : (String → String) → ℕ → ℕ → String → Action (List RefreshToken) (Unit {0})
revoke hash_of now user_id token =
    modify (update_where (is_revocable user_id (hash_of token)) (mark_revoked now))
