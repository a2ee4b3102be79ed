-- ===== src/Auth/Accounts/Shapes.antt =====
-- src/modules/auth/auth.service.ts: the regular expressions for an email address and for a PIN.
use Prim.Native.Nat.{ℕ, zero, suc}
use Prim.Native.Char
use Prim.Native.Char.{Char}
use Prim.Native.String.{String, [], ◌∷◌}
use mathlib.Core.Bool.{Bool, true, false, not, ◌&&◌, ◌||◌}
use msk_back.Base.{◌+◌, leb, ◌==◌, if◌then◌else◌}
use msk_back.Base.Text.{is_blank, is_space, concat}

-- `[^\s@]+`
abbrev pub is_plain : String → Bool
is_plain [] = true
is_plain (c ∷ s) = let rest = is_plain s in not (is_space c || Char.code c == 64) && rest

-- A dot that has a plain text before it, and one after it, neither of them empty.
abbrev pub has_dot : Bool → String → Bool
has_dot started [] = false
has_dot started (c ∷ s) =
    let rest = has_dot true s in (started && Char.code c == 46 && not (is_blank s)) || rest

abbrev pub is_domain : String → Bool
is_domain s = is_plain s && has_dot false s

-- A plain text that is not empty, one `@`, and a domain.
abbrev pub has_at : Bool → String → Bool
has_at started [] = false
has_at started (c ∷ s) =
    let rest = has_at true s in
    if Char.code c == 64 then started && is_domain s else not (is_space c) && rest

-- `/^[^\s@]+@[^\s@]+\.[^\s@]+$/.test`
unfoldable pub looks_like_email : String → Bool
looks_like_email = has_at false

abbrev pub is_digit : Char → Bool
is_digit c = let n = Char.code c in leb 48 n && leb n 57

abbrev pub all_digits : String → Bool
all_digits [] = true
all_digits (c ∷ s) = let rest = all_digits s in is_digit c && rest

-- A character beyond the first 65536 is two units of UTF-16.
abbrev pub utf16_units : Char → ℕ
utf16_units c = if leb 65536 (Char.code c) then 2 else 1

-- JavaScript's `length`, in units of UTF-16.
abbrev pub text_length : String → ℕ
text_length [] = 0
text_length (c ∷ s) = utf16_units c + text_length s

-- `/^\d{4,6}$/.test`
abbrev pub looks_like_pin : String → Bool
looks_like_pin s = all_digits s && leb 4 (text_length s) && leb (text_length s) 6

-- Every run of the characters becomes one dash; `in_run` says that the character before is of one.
abbrev pub dash_runs : (Char → Bool) → Bool → String → String
dash_runs is_bad in_run [] = []
dash_runs is_bad in_run (c ∷ s) =
    let inside = dash_runs is_bad true s in
    let outside = dash_runs is_bad false s in
    if is_bad c then (if in_run then inside else concat "-" inside) else c ∷ outside

-- `.replace(/…+/g, '-')`
abbrev pub dashed : (Char → Bool) → String → String
dashed is_bad = dash_runs is_bad false

abbrev pub is_dash : Char → Bool
is_dash c = Char.code c == 45

abbrev pub drop_dashes : String → String
drop_dashes [] = []
drop_dashes (c ∷ s) = let rest = drop_dashes s in if is_dash c then rest else c ∷ s

abbrev pub drop_last_dashes : String → String
drop_last_dashes [] = []
drop_last_dashes (c ∷ s) =
    let rest = drop_last_dashes s in if is_dash c && is_blank rest then [] else c ∷ rest

-- `[^a-z0-9]`
abbrev pub is_not_slug : Char → Bool
is_not_slug c = let n = Char.code c in not (leb 97 n && leb n 122 || leb 48 n && leb n 57)

-- `.slice(0, n)`
abbrev pub slice : ℕ → String → String
slice zero s = []
slice (suc n) [] = []
slice (suc n) (c ∷ s) = c ∷ slice n s
