-- ===== src/Project/Slug.antt =====
-- `normalizePrefix` and `slugify` of the routes of app/api/projects.
use Prim.Native.Char.{code}
use conductor_dashboard.Common.{
  ℕ, ◌-◌, String, Bool, false, not, ◌&&◌, ◌||◌, leb, ◌==◌, if◌then◌else◌, text_truthy, trim,
}

-- The case mappings of String.
pub record Cases : Type 0 where
  pub lower : String → String
  pub upper : String → String

-- `slice(0, n)`; a character of two units that does not fit is dropped whole.
abbrev pub slice : ℕ → String → String
slice n String.[] = String.[]
slice n (String.◌∷◌ c s) =
    let units : ℕ = if leb 0x10000 (code c) then 2 else 1 in
    let rest = slice (n - units) s in if leb units n then String.◌∷◌ c rest else String.[]

abbrev pub keep_chars : (ℕ → Bool) → String → String
keep_chars p String.[] = String.[]
keep_chars p (String.◌∷◌ c s) =
    let rest = keep_chars p s in if p (code c) then String.◌∷◌ c rest else rest

abbrev pub is_digit : ℕ → Bool
is_digit c = leb 48 c && leb c 57

-- [A-Z0-9]
abbrev pub is_prefix_char : ℕ → Bool
is_prefix_char c = (leb 65 c && leb c 90) || is_digit c

-- [a-z0-9]
abbrev pub is_slug_char : ℕ → Bool
is_slug_char c = (leb 97 c && leb c 122) || is_digit c

unfoldable pub normalize_prefix : Cases → String → String
normalize_prefix k input = slice 12 (keep_chars is_prefix_char (k.upper (trim input)))

-- replace(/[^a-z0-9]+/g, '-'); `gap` is whether the character before was replaced.
abbrev pub dash_runs : Bool → String → String
dash_runs gap String.[] = String.[]
dash_runs gap (String.◌∷◌ c s) =
    let rest = dash_runs (not (is_slug_char (code c))) s in
    if is_slug_char (code c) then String.◌∷◌ c rest else (if gap then rest else String.◌∷◌ "-" rest)

abbrev pub drop_dashes_start : String → String
drop_dashes_start String.[] = String.[]
drop_dashes_start (String.◌∷◌ c s) =
    let rest = drop_dashes_start s in if code c == 45 then rest else String.◌∷◌ c s

abbrev pub drop_dashes_end : String → String
drop_dashes_end String.[] = String.[]
drop_dashes_end (String.◌∷◌ c s) =
    let rest = drop_dashes_end s in
    if code c == 45 && not (text_truthy rest) then String.[] else String.◌∷◌ c rest

unfoldable pub slugify : Cases → String → String
slugify k input =
    slice 64 (drop_dashes_end (drop_dashes_start (dash_runs false (k.lower (trim input)))))
