-- ===== src/Store/Logs.antt =====
-- The log lines of the client, newest first, at most 1000 of them.
use conductor_dashboard.Common.{
  ℕ, zero, suc, sym, eq_iff, String, Bool, true, false, List, [], ◌∷◌, ◌≡◌, ◌≢◌, ◌≤◌, refl, length,
  take, any, str_eq, arith, All, if◌then◌else◌, Bool-cases, length-take-le, inl, inr,
}

pub data Level : Type 0 where
  info warn error debug : Level

pub record LogEntry : Type 0 where
  pub id : String
  pub timestamp : ℕ
  pub level : Level
  pub source : String
  pub message : String

abbrev pub same_id : LogEntry → LogEntry → Bool
same_id log old = str_eq old.id log.id

-- findIndex and the assignment at that index: the first entry of the id becomes the new one.
abbrev pub replace_first : LogEntry → List LogEntry → List LogEntry
replace_first log [] = []
replace_first log (l ∷ ls) =
    let rest = replace_first log ls in if same_id log l then log ∷ ls else l ∷ rest

unfoldable pub add_log : LogEntry → List LogEntry → List LogEntry
add_log log logs = if any (same_id log) logs then replace_first log logs else take 1000 (log ∷ logs)

-- No two entries have one id.
abbrev pub Distinct : List LogEntry → Type 0
Distinct [] = Unit
Distinct (l ∷ ls) = All (λ m. m.id ≢ l.id) ls × Distinct ls

-- At most 1000 entries, no two of one id.
abbrev pub IsLog : List LogEntry → Type 0
IsLog logs = (length logs ≤ 1000) × Distinct logs

length-replace_first :
    (log : LogEntry) (ls : List LogEntry) → length (replace_first log ls) ≡ length ls
length-replace_first log [] = refl
length-replace_first log (l ∷ ls) = ground (arith, length-replace_first log ls)

All-take : (P : LogEntry → Type 0) (n : ℕ) (ls : List LogEntry) → All P ls → All P (take n ls)
All-take P zero ls h = tt
All-take P (suc n) [] h = tt
All-take P (suc n) (l ∷ ls) (p, h) = (p, All-take P n ls h)

Distinct-take : (n : ℕ) (ls : List LogEntry) → Distinct ls → Distinct (take n ls)
Distinct-take zero ls h = tt
Distinct-take (suc n) [] h = tt
Distinct-take (suc n) (l ∷ ls) (p, h) = (All-take (λ m. m.id ≢ l.id) n ls p, Distinct-take n ls h)

same_id→≡ : (log l : LogEntry) → same_id log l ≡ true → l.id ≡ log.id
same_id→≡ log l h = (eq_iff l.id log.id).0 h

apart : (log l : LogEntry) → same_id log l ≡ false → l.id ≢ log.id
apart log l h e = let q = (eq_iff l.id log.id).1 e in cc

unlisted :
    (log : LogEntry) (ls : List LogEntry)
    → any (same_id log) ls ≡ false
    → All (λ m. m.id ≢ log.id) ls
unlisted log [] h = tt
unlisted log (l ∷ ls) h = elim (Bool-cases (same_id log l)) [
  | inl e ↦ absurd (let q = rw e at h in cc q)
  | inr e ↦ (apart log l e, unlisted log ls (rw e at h))
]

All-replace_first :
    (P : LogEntry → Type 0) (log : LogEntry) (ls : List LogEntry)
    → P log
    → All P ls
    → All P (replace_first log ls)
All-replace_first P log [] k h = tt
All-replace_first P log (l ∷ ls) k (p, h) = elim (Bool-cases (same_id log l)) [
  | inl e ↦ rw e (k, h)
  | inr e ↦ rw e (p, All-replace_first P log ls k h)
]

Distinct-replace_first :
    (log : LogEntry) (ls : List LogEntry) → Distinct ls → Distinct (replace_first log ls)
Distinct-replace_first log [] h = tt
Distinct-replace_first log (l ∷ ls) (p, h) = elim (Bool-cases (same_id log l)) [
  | inl e ↦ rw e (rw (same_id→≡ log l e) at p, h)
  | inr e ↦ rw e (
    All-replace_first (λ m. m.id ≢ l.id) log ls (λ q. apart log l e (sym q)) p,
    Distinct-replace_first log ls h,
  )
]

-- A log line that arrives leaves at most 1000 entries and no two of one id, also where it has the id
-- of an entry that is shown.
pub add_log-IsLog : (log : LogEntry) (logs : List LogEntry) → IsLog logs → IsLog (add_log log logs)
unfolding add_log
add_log-IsLog log logs (n, d) = elim (Bool-cases (any (same_id log) logs)) [
  | inl e ↦ rw e (rw (length-replace_first log logs) n, Distinct-replace_first log logs d)
  | inr e ↦
      rw e
        (length-take-le 1000 (log ∷ logs), Distinct-take 1000 (log ∷ logs) (unlisted log logs e, d))
]
