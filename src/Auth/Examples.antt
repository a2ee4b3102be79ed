-- ===== src/Auth/Examples.antt =====
-- A code and a token, and the theorems of this part on them.
use msk_back.Auth.Otp.Guesses.{Finds, after_guesses, guesses-accepted}
use msk_back.Base.{ℕ, ◌+◌, String, ◌≡◌, refl, false, none, List, [], ◌∷◌, ◌==◌}
use msk_back.Base.Action.{Result, ok}
use msk_back.Base.Text.{same_text}
use msk_back.Auth.Otp.{OtpCode, OtpDb, is_live, latest, mark_consumed, consume, reset_password}
use msk_back.Auth.Otp.Consume.{consume-once}
use msk_back.Auth.Tokens.{RefreshToken, Draw, new_token, issue, mark_revoked, is_stale, refresh}
use msk_back.Auth.Tokens.Replay.{Refused, refresh-Refused}

-- A hash that is the text itself, and the check of it.
abbrev plain : String → String
plain s = s

abbrev sent_code : ℕ → String → ℕ → OtpCode
sent_code id code now = record {
  id = id;
  user_id = none;
  destination = "guest@example.com";
  purpose = reset_password;
  code_hash = code;
  attempts = 0;
  created_at = now;
  expires_at = now + 300_000;
  consumed_at = none;
}

abbrev sent : OtpDb
sent = record { codes = sent_code 1 "111111" 900 ∷ sent_code 2 "222222" 1_000 ∷ []; accounts = [] }

abbrev ask : ℕ → String → OtpDb → Result OtpCode × OtpDb
ask now code = consume same_text now "guest@example.com" reset_password code

-- The newest code is used first, and then the other one.
abbrev after_first : OtpDb
after_first = record {
  codes = sent_code 1 "111111" 900 ∷ mark_consumed 2_000 (sent_code 2 "222222" 1_000) ∷ [];
  accounts = [];
}

abbrev after_second : OtpDb
after_second = record {
  codes =
      mark_consumed 3_000 (sent_code 1 "111111" 900)
      ∷ mark_consumed 2_000 (sent_code 2 "222222" 1_000)
      ∷ [];
  accounts = [];
}

first_use : ask 2_000 "222222" sent ≡ (ok (sent_code 2 "222222" 1_000), after_first)
unfolding consume is_live latest
first_use = refl

second_use : ask 3_000 "111111" after_first ≡ (ok (sent_code 1 "111111" 900), after_second)
unfolding consume is_live latest
second_use = refl

consume-once_example : (1 == 2) ≡ false
consume-once_example =
    consume-once same_text 2_000 3_000 "guest@example.com" "guest@example.com" reset_password
      reset_password "222222" "111111" sent (sent_code 2 "222222" 1_000) (sent_code 1 "111111" 900)
      after_first after_second first_use second_use

abbrev a_token : RefreshToken
a_token = record {
  id = 1;
  user_id = 7;
  token_hash = "aaaa";
  expires_at = 2_592_001_000;
  revoked_at = none;
}

abbrev next_draw : Draw
next_draw = record { id = 2; token = "bbbb" }

abbrev last_draw : Draw
last_draw = record { id = 3; token = "cccc" }

abbrev rotated : List RefreshToken
rotated = mark_revoked 2_000 a_token ∷ new_token plain 30 2_000 next_draw 7 ∷ []

rotation :
    refresh plain 30 2_000 next_draw "aaaa" (a_token ∷ [])
    ≡ (ok (record { user_id = 7; refresh_token = "bbbb" }), rotated)
unfolding refresh issue is_stale new_token
rotation = refl

refresh-Refused_example : Refused rotated (refresh plain 30 3_000 last_draw "aaaa" rotated)
refresh-Refused_example =
    refresh-Refused plain 30 2_000 3_000 next_draw last_draw "aaaa" (a_token ∷ []) rotated
      (record { user_id = 7; refresh_token = "bbbb" }) rotation

-- A wrong guess at the code, and another one later.
abbrev two_guesses : List (ℕ × String)
two_guesses = (1_500, "000000") ∷ (1_600, "000001") ∷ []

found_1500 : Finds 1500 "222222" "guest@example.com" reset_password sent
unfolding is_live latest
found_1500 = (sent_code 2 "222222" 1_000, refl, refl)

found_1600 : Finds 1600 "222222" "guest@example.com" reset_password sent
unfolding is_live latest
found_1600 = (sent_code 2 "222222" 1_000, refl, refl)

found_2000 : Finds 2000 "222222" "guest@example.com" reset_password sent
unfolding is_live latest
found_2000 = (sent_code 2 "222222" 1_000, refl, refl)

guesses-accepted_example :
    (c : OtpCode) × ((consume same_text 2_000 "guest@example.com" reset_password "222222"
        (after_guesses same_text "guest@example.com" reset_password two_guesses sent)).0
      ≡ ok c)
guesses-accepted_example =
    guesses-accepted same_text "guest@example.com" reset_password "222222" two_guesses 2_000
      "222222" sent ((found_1500, refl), ((found_1600, refl), tt)) found_2000 refl
