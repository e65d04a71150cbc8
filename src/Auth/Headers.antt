-- ===== src/Auth/Headers.antt =====
-- The session cookie and the API key of a request: parseCookie and extractApiKeyFromHeaders of lib/auth.ts.
use Prim.Native.Char.{code}
use Prim.Native.String
use conductor_dashboard.Common.{
  String, Bool, false, ◌||◌, Option, none, some, List, [], ◌∷◌, ◌==◌, str_eq, if◌then◌else◌,
  text_truthy, trim, trim_start, is_white, cons_head,
}

-- The headers that name a principal, none where one is missing.
pub record Headers : Type 0 where
  pub cookie : Option String
  pub x_api_key : Option String
  pub authorization : Option String
  pub x_agent_name : Option String

abbrev pub header : Option String → String
header none = ""
header (some s) = s

-- The text after a prefix.
abbrev pub strip_prefix : String → String → Option String
strip_prefix String.[] s = some s
strip_prefix (String.◌∷◌ p ps) String.[] = none
strip_prefix (String.◌∷◌ p ps) (String.◌∷◌ c s) =
    let rest = strip_prefix ps s in if code p == code c then rest else none

-- ([^;]*), where a semicolon has the code 59
abbrev pub until_semicolon : String → String
until_semicolon String.[] = String.[]
until_semicolon (String.◌∷◌ c s) =
    let rest = until_semicolon s in if code c == 59 then String.[] else String.◌∷◌ c rest

abbrev pub or_later : Option String → Option String → Option String
or_later none later = later
or_later (some v) later = some v

-- The first `;\s*name=`, and the value that follows it.
abbrev pub after_semicolon : String → String → Option String
after_semicolon name String.[] = none
after_semicolon name (String.◌∷◌ c s) =
    let later = after_semicolon name s in
    or_later (if code c == 59 then strip_prefix name (trim_start s) else none) later

-- The raw value of `(?:^|;\s*)name=([^;]*)`.
abbrev pub cookie_value : String → String → Option String
cookie_value name s = elim (or_later (strip_prefix name s) (after_semicolon name s)) [
  | none ↦ none
  | some rest ↦ some (until_semicolon rest)
]

-- What parseCookie gives: it throws on a value that decodeURIComponent cannot read.
pub data Cookie : Type 0 where
  malformed absent : Cookie
  value : String → Cookie

abbrev pub decoded : Option String → Cookie
decoded none = malformed
decoded (some s) = value s

abbrev pub decode_value : (String → Option String) → Option String → Cookie
decode_value decode none = absent
decode_value decode (some raw) = decoded (decode raw)

-- parseCookie(cookieHeader, 'mc-session')
unfoldable pub parse_cookie : (String → Option String) → String → Cookie
parse_cookie decode s = decode_value decode (cookie_value "mc-session=" s)

-- split(/\s+/) of a text with no white space at its ends; `gap` is whether the character before was white.
abbrev pub words_from : Bool → String → List String
words_from gap String.[] = String.[] ∷ []
words_from gap (String.◌∷◌ c s) =
    let next = words_from (is_white (code c)) s in
    if is_white (code c) then (if gap then next else String.[] ∷ next) else cons_head c next

-- rest.join(' ')
abbrev pub join_words : List String → String
join_words [] = ""
join_words (w ∷ []) = w
join_words (w ∷ v ∷ ws) = String.◌++◌ w (String.◌++◌ " " (join_words (v ∷ ws)))

abbrev pub non_empty : String → Option String
non_empty s = if text_truthy s then some s else none

abbrev pub is_scheme : String → Bool
is_scheme s = str_eq s "bearer" || str_eq s "apikey" || str_eq s "token"

abbrev pub key_of : (String → String) → List String → Option String
key_of lower [] = none
key_of lower (scheme ∷ []) = none
key_of lower (scheme ∷ w ∷ ws) =
    if is_scheme (lower scheme) then non_empty (trim (join_words (w ∷ ws))) else none

unfoldable pub extract_api_key_from_headers : (String → String) → Headers → Option String
extract_api_key_from_headers lower h = or_later (non_empty (trim (header h.x_api_key))) (
    let a = trim (header h.authorization) in
    if text_truthy a then key_of lower (words_from false a) else none)
