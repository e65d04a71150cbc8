-- ===== src/Common/Text.antt =====
-- JavaScript's white space, and what `trim` leaves of a text.
use Prim.Native.Nat.{ℕ, ◌+◌}
use Prim.Native.Char.{Char, code}
use Prim.Native.String.{String}
use mathlib.Core.Bool.{Bool, true, false, not, ◌&&◌, ◌||◌}
use mathlib.Core.Option.{Option, none, some}
use text.Mathlib.Text.{◌==◌ as str_eq}
use mathlib.Core.List.{List, [], ◌∷◌}
use conductor_dashboard.Common.Tests.{leb, ◌==◌, if◌then◌else◌}

-- The code points that ECMAScript takes for white space or a line terminator.
abbrev pub is_white : ℕ → Bool
is_white c =
    (leb 9 c && leb c 13)
    || c == 32
    || c == 160
    || c == 0x1680
    || (leb 0x2000 c && leb c 0x200a)
    || c == 0x2028
    || c == 0x2029
    || c == 0x202f
    || c == 0x205f
    || c == 0x3000
    || c == 0xfeff

-- Whether `trim` leaves anything.
abbrev pub has_visible : String → Bool
has_visible String.[] = false
has_visible (String.◌∷◌ c s) = not (is_white (code c)) || has_visible s

-- Whether a text, or a text that may be null, is truthy.
abbrev pub text_truthy : String → Bool
text_truthy s = not (str_eq s "")

abbrev pub truthy? : Option String → Bool
truthy? none = false
truthy? (some s) = text_truthy s

abbrev pub trim_start : String → String
trim_start String.[] = String.[]
trim_start (String.◌∷◌ c s) =
    let rest = trim_start s in if is_white (code c) then rest else String.◌∷◌ c s

abbrev pub trim_end : String → String
trim_end String.[] = String.[]
trim_end (String.◌∷◌ c s) =
    let rest = trim_end s in
    if is_white (code c) && not (text_truthy rest) then String.[] else String.◌∷◌ c rest

-- JavaScript's `trim`.
abbrev pub trim : String → String
trim s = trim_end (trim_start s)

abbrev pub cons_head : Char → List String → List String
cons_head c [] = String.◌∷◌ c String.[] ∷ []
cons_head c (x ∷ xs) = String.◌∷◌ c x ∷ xs

-- split(','), where a comma has the code 44
abbrev pub split_commas : String → List String
split_commas String.[] = String.[] ∷ []
split_commas (String.◌∷◌ c s) =
    let rest = split_commas s in if code c == 44 then String.[] ∷ rest else cons_head c rest

-- JavaScript's `length`, in units of UTF-16.
abbrev pub utf16_length : String → ℕ
utf16_length String.[] = 0
utf16_length (String.◌∷◌ c s) = (if leb 0x10000 (code c) then 2 else 1) + utf16_length s

-- Whether every character, by its code, passes the test.
abbrev pub all_chars : (ℕ → Bool) → String → Bool
all_chars p String.[] = true
all_chars p (String.◌∷◌ c s) = p (code c) && all_chars p s

abbrev pub first_char : (ℕ → Bool) → String → Bool
first_char p String.[] = false
first_char p (String.◌∷◌ c s) = p (code c)

abbrev pub last_char : (ℕ → Bool) → String → Bool
last_char p String.[] = false
last_char p (String.◌∷◌ c s) =
    let rest = last_char p s in if text_truthy s then rest else p (code c)
