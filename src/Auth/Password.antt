-- ===== src/Auth/Password.antt =====
-- lib/password.ts. scrypt, hexadecimal texts and the random salt are arguments.
use Prim.Native.Char.{code}
use Prim.Native.String
use Prim.Native.String.compare
use text.Mathlib.TextLemmas.{cons-append, nil-append}
use conductor_dashboard.Common.{
  ℕ, String, Bool, true, false, not, ◌&&◌, ◌≡◌, ◌↔◌, refl, all_chars, inl, inr, List, [], ◌∷◌,
  arith, ◌==◌, if◌then◌else◌, Bool-cases, text_truthy, cons_head,
}

-- split(':'), where a colon has the code 58
abbrev pub split_colons : String → List String
split_colons String.[] = String.[] ∷ []
split_colons (String.◌∷◌ c s) =
    let rest = split_colons s in if code c == 58 then String.[] ∷ rest else cons_head c rest

-- timingSafeEqual of two buffers, false where their lengths differ
abbrev pub same_bytes : List ℕ → List ℕ → Bool
same_bytes [] [] = true
same_bytes [] (y ∷ ys) = false
same_bytes (x ∷ xs) [] = false
same_bytes (x ∷ xs) (y ∷ ys) = x == y && same_bytes xs ys

module _ (hex : List ℕ → String) (unhex : String → List ℕ) (scrypt : String → String → List ℕ) where
  unfoldable pub hash_password : String → String → String
  hash_password salt password = String.◌++◌ salt (String.◌++◌ ":" (hex (scrypt password salt)))

  abbrev pub verify_parts : String → List String → Bool
  verify_parts password [] = false
  verify_parts password (salt ∷ []) = false
  verify_parts password (salt ∷ hash ∷ more) =
      text_truthy salt && text_truthy hash && same_bytes (scrypt password salt) (unhex hash)

  unfoldable pub verify_password : String → String → Bool
  verify_password password stored = verify_parts password (split_colons stored)

same_bytes_iff : (xs ys : List ℕ) → (same_bytes xs ys ≡ true) ↔ (xs ≡ ys)
same_bytes_iff [] [] = ground arith
same_bytes_iff [] (y ∷ ys) = ground arith
same_bytes_iff (x ∷ xs) [] = ground arith
same_bytes_iff (x ∷ xs) (y ∷ ys) = ground (arith, same_bytes_iff xs ys)

abbrev pub no_colon : String → Bool
no_colon s = all_chars (λ c. not (c == 58)) s

-- A text with no colon is one part.
alone : (s : String) → no_colon s ≡ true → split_colons s ≡ s ∷ []
alone String.[] h = refl
alone (String.◌∷◌ c s) h = elim (Bool-cases (code c == 58)) [
  | inl colon ↦ absurd (let q = rw colon at h in cc q)
  | inr other ↦ rw (other, alone s (rw other at h)) refl
]

-- And the first part of a text that it begins, before a colon.
in_front :
    (s t : String)
    → no_colon s ≡ true
    → split_colons (String.◌++◌ s (String.◌++◌ ":" t)) ≡ s ∷ split_colons t
in_front String.[] t h = rw (nil-append, cons-append, nil-append) refl
in_front (String.◌∷◌ c s) t h = rw cons-append (elim (Bool-cases (code c == 58)) [
  | inl colon ↦ absurd (let q = rw colon at h in cc q)
  | inr other ↦ rw (other, in_front s t (rw other at h)) refl
])

-- Where the hexadecimal text of the bytes that scrypt gives for the chosen password reads back as them, is
-- not empty and has no colon, and neither is the salt empty nor has it a colon, a password is verified
-- against the chosen one's hash exactly when scrypt gives the same bytes for both.
pub verify_password-hash_password :
    (hex : List ℕ → String) (unhex : String → List ℕ) (scrypt : String → String → List ℕ)
    (salt chosen tried : String)
    → text_truthy salt ≡ true
    → no_colon salt ≡ true
    → unhex (hex (scrypt chosen salt)) ≡ scrypt chosen salt
    → text_truthy (hex (scrypt chosen salt)) ≡ true
    → no_colon (hex (scrypt chosen salt)) ≡ true
    → (verify_password hex unhex scrypt tried (hash_password hex unhex scrypt salt chosen) ≡ true)
      ↔ (scrypt tried salt ≡ scrypt chosen salt)
unfolding hash_password verify_password
verify_password-hash_password hex unhex scrypt salt chosen tried some_salt clean reads some_hash
      plain =
    rw (in_front salt (hex (scrypt chosen salt)) clean) (
      rw (alone (hex (scrypt chosen salt)) plain, some_salt, some_hash, reads)
        (same_bytes_iff (scrypt tried salt) (scrypt chosen salt)))
