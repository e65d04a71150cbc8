-- ===== src/Mentions.antt =====
-- lib/mentions.ts: the handles that a text mentions, and whom they mean. `lower` is toLowerCase, whose
-- tables of Unicode are not repeated here.
pub mod Resolve
pub mod Handles
pub mod Recipients
mod Tests
use Prim.Native.Char.{Char, code}
use Prim.Native.String
use conductor_dashboard.Common.{
  ℕ, zero, suc, ◌+◌, ◌-◌, String, Bool, true, false, not, ◌&&◌, ◌||◌, Option, none, some, List, [],
  ◌∷◌, any, leb, ◌==◌, str_eq, if◌then◌else◌,
}

-- [A-Za-z0-9]
abbrev pub is_alnum : ℕ → Bool
is_alnum c = (leb 48 c && leb c 57) || (leb 65 c && leb c 90) || (leb 97 c && leb c 122)

-- [A-Za-z0-9._-]
abbrev pub is_handle_char : ℕ → Bool
is_handle_char c = is_alnum c || c == 46 || c == 95 || c == 45

-- [A-Za-z0-9._-]{0,n}, as much as there is.
abbrev pub name_rest : ℕ → String → String
name_rest zero s = String.[]
name_rest (suc n) String.[] = String.[]
name_rest (suc n) (String.◌∷◌ c s) =
    let rest = name_rest n s in if is_handle_char (code c) then String.◌∷◌ c rest else String.[]

-- [A-Za-z0-9][A-Za-z0-9._-]{0,63}
abbrev pub name_at : String → Option String
name_at String.[] = none
name_at (String.◌∷◌ c s) = if is_alnum (code c) then some (String.◌∷◌ c (name_rest 63 s)) else none

-- @ and a name
abbrev pub mention_at : String → Option String
mention_at String.[] = none
mention_at (String.◌∷◌ c s) = if code c == 64 then name_at s else none

abbrev pub size : String → ℕ
size String.[] = 0
size (String.◌∷◌ c s) = suc (size s)

-- The name, and how many characters the match takes.
abbrev pub with_size : ℕ → Option String → Option (String × ℕ)
with_size k none = none
with_size k (some t) = some (t, k + size t)

abbrev pub or_else : Option (String × ℕ) → Option (String × ℕ) → Option (String × ℕ)
or_else none b = b
or_else (some a) b = some a

abbrev pub after_char : Char → String → Option (String × ℕ)
after_char c s = if is_handle_char (code c) then none else with_size 2 (mention_at s)

-- MENTION_PATTERN at the start of `c ∷ s`: behind the text's beginning, or behind a character that
-- stands in no handle.
abbrev pub match_here : Bool → Char → String → Option (String × ℕ)
match_here start c s =
    or_else (if start then with_size 1 (mention_at (String.◌∷◌ c s)) else none) (after_char c s)

abbrev pub found_then : Option (String × ℕ) → (ℕ → List String) → List String
found_then none rest = rest 0
found_then (some (t, k)) rest = t ∷ rest k

-- All matches from left to right; `skip` characters more belong to the last match.
unfoldable pub matches : Bool → ℕ → String → List String
matches start skip String.[] = []
matches start (suc n) (String.◌∷◌ c s) = matches false n s
matches start zero (String.◌∷◌ c s) =
    found_then (match_here start c s) (λ k. matches false (k - 1) s)

module _ (lower : String → String) where
  -- The tokens whose key is not seen yet.
  unfoldable pub unseen : List String → List String → List String
  unseen seen [] = []
  unseen seen (t ∷ ts) =
      let skip = unseen seen ts in
      let keep = t ∷ unseen (lower t ∷ seen) ts in
      if any (λ k. str_eq k (lower t)) seen then skip else keep

  unfoldable pub parse_mentions : String → List String
  unfolding unseen matches
  parse_mentions text = unseen [] (matches true 0 text)
