-- ===== src/Provision/Rule/Resumed.antt =====
-- The end of a wait.
use conductor_dashboard.Common.{
  ℕ, ◌≡◌, sym, ap, subst, ◌∙◌, inl, inr, Option, none, some, arith, ◌==◌, ==_iff, Bool-cases,
}
use conductor_dashboard.Provision.{Db}
use conductor_dashboard.Provision.Run.{Exec}
use conductor_dashboard.Provision.System.{System, settle}
use conductor_dashboard.Provision.Rule.Started.{AfterGoes}
use conductor_dashboard.Provision.Rule.Waits.{Waits, IsValid, other_row, Alters-IsFresh}

-- A job whose row is the same is still waited for.
row-Waits :
    (db db' : Db) (e : Exec) → db'.jobs e.run.job ≡ db.jobs e.run.job → Waits db e → Waits db' e
row-Waits db db' e same (j, h, run, dry, keeps) = (j, same ∙ h, run, dry, keeps)

pub settle-IsValid :
    (i : ℕ) (e : Exec) (out : Db × Option Exec) (s : System)
    → IsValid s
    → s.execs i ≡ some e
    → AfterGoes e s.db out
    → IsValid (settle i out s)
settle-IsValid i e (db, none) s valid here (f, rows, next, ends) =
    let (below, (j, row, run, dry, keeps)) = valid.0 i e here in
    (
      λ n e' h. elim (Bool-cases (n == i)) [
        | inl x ↦ absurd (let q = rw x at h in cc q)
        | inr x ↦
            let there : s.execs n ≡ some e' = rw x at h in
            let (below', waits) = valid.0 n e' there in
            (
              below',
              row-Waits s.db db e'
                  (other_row e.run.job e'.run.job f s.db db
                    (λ same. let q = valid.1 n i e' e there here same in ground (arith, x, q))
                    (rows, next))
                  waits,
            )
      ],
      λ n k e1 e2 h1 h2 same. elim (Bool-cases (n == i)) [
        | inl x ↦ absurd (let q = rw x at h1 in cc q)
        | inr x ↦ elim (Bool-cases (k == i)) [
          | inl y ↦ absurd (let q = rw y at h2 in cc q)
          | inr y ↦ valid.1 n k e1 e2 (rw x at h1) (rw y at h2) same
        ]
      ],
      Alters-IsFresh e.run.job f j s.db db valid.2 row (rows, next),
    )
settle-IsValid i e (db, some e') s valid here (rows, next, job, dry, actor) =
    let (below, (j, row, run, d, rule)) = valid.0 i e here in
    let new : Waits db e' = (
      j,
      ap (λ x. x e'.run.job) rows ∙ ap s.db.jobs job ∙ row,
      run,
      d ∙ sym dry,
      rw (dry, actor) rule,
    ) in
    (
      λ n e1 h. elim (Bool-cases (n == i)) [
        | inl x ↦
            let same : e' ≡ e1 = ground (arith, (rw x at h)) in
            let it : n ≡ i = (==_iff n i).0 x in
            (omega (arith, it, below), subst (Waits db) same new)
        | inr x ↦
            let (below', waits) = valid.0 n e1 (rw x at h) in
            (below', row-Waits s.db db e1 (ap (λ z. z e1.run.job) rows) waits)
      ],
      λ n k e1 e2 h1 h2 same. elim (Bool-cases (n == i)) [
        | inl x ↦ elim (Bool-cases (k == i)) [
          | inl y ↦ (==_iff n i).0 x ∙ sym ((==_iff k i).0 y)
          | inr y ↦
              let it : e' ≡ e1 = ground (arith, (rw x at h1)) in
              (==_iff n i).0 x
              ∙ valid.1 i k e e2 here (rw y at h2) (sym job ∙ ap (λ z. z.run.job) it ∙ same)
        ]
        | inr x ↦ elim (Bool-cases (k == i)) [
          | inl y ↦
              let it : e' ≡ e2 = ground (arith, (rw y at h2)) in
              valid.1 n i e1 e (rw x at h1) here (same ∙ ap (λ z. z.run.job) (sym it) ∙ job)
              ∙ sym ((==_iff k i).0 y)
          | inr y ↦ valid.1 n k e1 e2 (rw x at h1) (rw y at h2) same
        ]
      ],
      λ n h. ap (λ x. x n) rows ∙ valid.2 n (omega (arith, h, next)),
    )
