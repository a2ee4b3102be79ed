-- ===== src/Base/Text.antt =====
-- What JavaScript does with texts: `!s`, `===` and `trim`.
use Prim.Native.Char.{Char, code}
use Prim.Native.String
use Prim.Native.String.{String, [], ◌∷◌}
use text.Mathlib.Text
use mathlib.Core.Bool.{Bool, true, false, not, ◌&&◌, ◌||◌}
use mathlib.Core.Option.{Option, none, some}
use msk_back.Base.Tests.{leb, ◌==◌, if◌then◌else◌}

-- The empty text, which a condition reads as false.
abbrev pub is_blank : String → Bool
is_blank [] = true
is_blank (_ ∷ _) = false

-- A text that is there and not empty: `if (s)`.
abbrev pub is_filled : Option String → Bool
is_filled none = false
is_filled (some s) = not (is_blank s)

abbrev pub same_text : String → String → Bool
same_text s t = Text.◌==◌ s t

-- `a === b` where `a` may be missing.
abbrev pub text_is : Option String → String → Bool
text_is none t = false
text_is (some s) t = same_text s t

-- JavaScript's white space.
abbrev pub is_space : Char → Bool
is_space c =
    let n = code c in
    leb 9 n && leb n 13
    || n == 32
    || n == 160
    || n == 5760
    || leb 8192 n && leb n 8202
    || n == 8232
    || n == 8233
    || n == 8239
    || n == 8287
    || n == 12288
    || n == 65279

abbrev pub trim_start : String → String
trim_start [] = []
trim_start (c ∷ s) = let rest = trim_start s in if is_space c then rest else c ∷ s

abbrev pub trim_end : String → String
trim_end [] = []
trim_end (c ∷ s) = let rest = trim_end s in if is_space c && is_blank rest then [] else c ∷ rest

unfoldable pub trim : String → String
trim s = trim_end (trim_start s)

abbrev pub concat : String → String → String
concat s t = String.◌++◌ s t

-- `s.split('@')[0]`
abbrev pub before_at : String → String
before_at [] = []
before_at (c ∷ s) = let rest = before_at s in if code c == 64 then [] else c ∷ rest

-- `s.replace(/[\s\-_]/g, '')`
abbrev pub without_separators : String → String
without_separators [] = []
without_separators (c ∷ s) =
    let rest = without_separators s in
    if is_space c || code c == 45 || code c == 95 then rest else c ∷ rest
