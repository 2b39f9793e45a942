-- ===== src/Migration/Guarded.antt =====
-- db.go: what Migrate has done when it runs a statement, and when it marks a migration as completed.
pub mod Whole
use sequel.Base.Cases.{option_intro, option_cases, bool_cases, bool_intro}
use sequel.Base.{
  ℕ, zero, suc, ◌≡◌, refl, sym, ap, ◌∙◌, Bool, true, false, List, [], ◌∷◌, ◌++◌, Option, none, some,
  Bytes, ◌==◌,
}
use mathlib.Core.List.{append-nil, append_assoc}
use sequel.Base.Int.{ℤ, pos}
use sequel.Driver.{Driver}
use sequel.Migration.{
  Ask, make_table, insert, read_completed, take_lock, extend_lock, release, complete, execute,
  Answer, Event, Server, Turn, next, again, stop, Ended, tell, retry, retry_contention, renew,
  renew_due, exec_retrying, run_statements, run_err, run_locked, lock_and_run, unless_completed,
  is_duplicate, turn,
}
use sequel.Migration.Files.{File, read_files, sorted_numbers}
use sequel.Migration.Migrate.{
  Watermark, at, table_failed, read_failed, create_migrations_table, table_once, once_more,
  find_watermark, migrate_pending, migrate_from, migrate, plan_of, is_supported,
}
use sequel.Transaction.{Fault}

-- What a log says of the migration that is under way, from what its last event does to it: the number
-- whose lock was taken last, and the statements that have run since, all without an error.
abbrev pub after : Ask → Answer → Option (ℤ × List Bytes) → Option (ℤ × List Bytes)
after (take_lock n) r p = elim r.err [
  | some e ↦ p
  | none ↦ elim (r.value == 0) [ true ↦ p | false ↦ some (n, []) ]
]
after (execute n stmt) r p = elim r.err [
  | some e ↦ none
  | none ↦ elim p [ none ↦ none | some ran ↦ some (ran.0, ran.1 ++ (stmt ∷ [])) ]
]
after (complete n) r p = elim r.err [ some e ↦ p | none ↦ none ]
after (release n) r p = elim r.err [ some e ↦ p | none ↦ none ]
after _ r p = p

abbrev pub progress : List Event → Option (ℤ × List Bytes)
progress [] = none
progress (e ∷ log) = after e.ask e.answer (progress log)

-- A statement of a migration is run when this runner holds its lock and has run the ones before it, and
-- the migration is marked when all have run.
abbrev pub Allowed : (ℤ → List Bytes) → Ask → Option (ℤ × List Bytes) → Type 0
Allowed plan (execute n stmt) p =
    (ran : List Bytes) × (rest : List Bytes) × (p ≡ some (n, ran)) × (plan n ≡ ran ++ (stmt ∷ rest))
Allowed plan (complete n) p = p ≡ some (n, plan n)
Allowed plan _ p = Unit {0}

-- Every event of a log was allowed when it happened.
abbrev pub Guarded : (ℤ → List Bytes) → List Event → Type 0
Guarded plan [] = Unit {0}
Guarded plan (e ∷ log) = Allowed plan e.ask (progress log) × Guarded plan log

-- A rule for the loop of `retryContention`.
retry-rule :
    (s : Server) (P : List Event → Type 0) (R : List Event × Answer → Type 0)
    (f : List Event → List Event × Answer)
    → ((l : List Event) → P l → R (f l))
    → ((l : List Event) (e : Fault) → P l → (f l).1.err ≡ some e → P (f l).0)
    → (left : ℕ) (last : Answer) (l : List Event) → P l
    → R (l, last)
    → R (retry s f left last l)
unfolding retry
retry-rule s P R f once keep zero last l p r = r
retry-rule s P R f once keep (suc left) last l p r =
    option_cases R (f l).1.err (λ h. once l p)
      (λ e h.
        bool_intro R (s.contention e)
          (retry-rule s P R f once keep left (f l).1 (f l).0 (keep l e p h) (once l p)) (once l p))

pub turn_intro {ℓ κ} :
    {A : Type ℓ} (P : A → Type κ) (t : Turn) {x y : A} {f : Fault → A}
    → P x
    → P y
    → ((e : Fault) → P (f e))
    → P (elim t [ next ↦ x | again ↦ y | stop e ↦ f e ])
turn_intro P next p q r = p
turn_intro P again p q r = q
turn_intro P (stop e) p q r = r e

taken-progress :
    (n : ℤ) (r : Answer) (p : Option (ℤ × List Bytes))
    → r.err ≡ none
    → (r.value == 0) ≡ false
    → after (take_lock n) r p ≡ some (n, [])
taken-progress n r p fine granted =
    let Q : Option (ℤ × List Bytes) → Type 0 = λ q. q ≡ some (n, []) in
    option_cases Q r.err (λ h. bool_cases Q (r.value == 0) (λ zero. absurd cc) (λ more. refl))
      (λ e h. absurd cc)

run_err-none : (lost err : Option Fault) → run_err (lost, err) ≡ none → err ≡ none
run_err-none lost none h = refl
run_err-none none (some e) h = h
run_err-none (some f) (some e) h = absurd cc

pub retrying-keeps :
    (s : Server) (P : List Event → Type 0) (a : Ask)
    → ((l : List Event) → P l → P (tell s a l).0)
    → (log : List Event) → P log
    → P (exec_retrying s a log).0
unfolding retry_contention
retrying-keeps s P a keep log p =
    retry-rule s P (λ r. P r.0) (tell s a) keep (λ l e q h. keep l q) 8 _ log p p

module _ (s : Server) (plan : ℤ → List Bytes) where
  -- The lock of `n` is held, and `ran` are the statements that have run.
  abbrev Held : ℤ → List Bytes → List Event → Type 0
  Held n ran log = Guarded plan log × (progress log ≡ some (n, ran))

  -- What every renewal of a lock keeps.
  Steady : ℤ → (List Event → Type 0) → Type 0
  Steady n P = (l : List Event) → P l → P (tell s (extend_lock n) l).0

  renew-Steady :
      (n : ℤ) (P : List Event → Type 0)
      → Steady n P
      → (k : ℕ) (log : List Event) → P log
      → P (renew s k n log).0
  unfolding renew Steady
  renew-Steady n P keep zero log h = h
  renew-Steady n P keep (suc k) log h =
      let first = retrying-keeps s P (extend_lock n) keep log h in
      option_intro {A = List Event × Option Fault} (λ r. P r.0) _
        (renew-Steady n P keep k (exec_retrying s (extend_lock n) log).0 first) (λ e. first)

  renew_due-Steady :
      (n : ℤ) (P : List Event → Type 0)
      → Steady n P
      → (lost : Option Fault) (log : List Event) → P log
      → P (renew_due s lost n log).0
  renew_due-Steady n P keep (some e) log h = h
  renew_due-Steady n P keep none log h = renew-Steady n P keep (s.renewals log) log h

  Held-Steady : (n : ℤ) (ran : List Bytes) → Steady n (Held n ran)
  unfolding tell Steady
  Held-Steady n ran = λ l h. ((tt, h.0), h.1)

  Guarded-Steady : (n : ℤ) → Steady n (Guarded plan)
  unfolding tell Steady
  Guarded-Steady n = λ l g. (tt, g)

  -- Behind the statements of `n`: all have run, unless one failed.
  abbrev Ran : ℤ → List Event × (Option Fault × Option Fault) → Type 0
  Ran n (log, (lost, err)) = Guarded plan log × (err ≡ none → progress log ≡ some (n, plan n))

  execute-Guarded :
      (n : ℤ) (ran : List Bytes) (stmt : Bytes) (rest : List Bytes) (log : List Event)
      → plan n ≡ ran ++ (stmt ∷ rest)
      → Held n ran log
      → Guarded plan (tell s (execute n stmt) log).0
  unfolding tell
  execute-Guarded n ran stmt rest log h held = ((ran, rest, held.1, h), held.0)

  execute-progress :
      (n : ℤ) (ran : List Bytes) (stmt : Bytes) (log : List Event)
      → (tell s (execute n stmt) log).1.err ≡ none
      → progress log ≡ some (n, ran)
      → progress (tell s (execute n stmt) log).0 ≡ some (n, ran ++ (stmt ∷ []))
  unfolding tell
  execute-progress n ran stmt log fine held = rw (fine, held) refl

  run_statements-Ran :
      (lost : Option Fault) (n : ℤ) (ran todo : List Bytes) (log : List Event)
      → plan n ≡ ran ++ todo
      → Held n ran log
      → Ran n (run_statements s lost n todo log)
  unfolding run_statements
  run_statements-Ran lost n ran [] log h held =
      let later = renew_due-Steady n (Held n ran) (Held-Steady n ran) lost log held in
      (later.0, λ fine. later.1 ∙ ap (λ l. some (n, l)) (sym (h ∙ append-nil ran)))
  run_statements-Ran lost n ran (stmt ∷ todo) log h held =
      let l = (renew_due s lost n log).0 in
      let still = (renew_due s lost n log).1 in
      let later = renew_due-Steady n (Held n ran) (Held-Steady n ran) lost log held in
      let m = tell s (execute n stmt) l in
      let guarded = execute-Guarded n ran stmt todo l h later in
      option_cases (Ran n) m.1.err
        (λ fine.
          run_statements-Ran still n (ran ++ (stmt ∷ [])) todo m.0
            (h ∙ sym (append_assoc ran (stmt ∷ []) todo))
            (guarded, execute-progress n ran stmt l fine later.1))
        (λ e failed.
          (renew_due-Steady n (Guarded plan) (Guarded-Steady n) still m.0 guarded, λ no. absurd cc))

  release-Guarded :
      (n : ℤ) (log : List Event)
      → Guarded plan log
      → Guarded plan (exec_retrying s (release n) log).0
  unfolding tell
  release-Guarded n = retrying-keeps s (Guarded plan) (release n) (λ l g. (tt, g))

  complete-Guarded :
      (n : ℤ) (log : List Event)
      → Held n (plan n) log
      → Guarded plan (exec_retrying s (complete n) log).0
  unfolding tell retry_contention
  complete-Guarded n log h =
      retry-rule s (Held n (plan n)) (λ r. Guarded plan r.0) (tell s (complete n))
        (λ l k. (k.1, k.0)) (λ l e k failed. ((k.1, k.0), rw failed k.1)) 8 _ log h h.0

  run_locked-Guarded :
      (n : ℤ) (log : List Event) → Held n [] log → Guarded plan (run_locked s n (plan n) log).0
  unfolding run_locked
  run_locked-Guarded n log h =
      let ran = run_statements s none n (plan n) log in
      let r = run_statements-Ran none n [] (plan n) log refl h in
      option_cases {A = List Event × Turn} (λ t. Guarded plan t.0) (run_err ran.1)
        (λ fine. complete-Guarded n ran.0 (r.0, r.1 (run_err-none ran.1.0 ran.1.1 fine)))
        (λ e failed. release-Guarded n ran.0 r.0)

  -- Behind the taking of the lock.
  abbrev Taken : ℤ → List Event × Answer → Type 0
  Taken n (log, r) =
      Guarded plan log × (r.err ≡ none → (r.value == 0) ≡ false → progress log ≡ some (n, []))

  take_lock-Taken :
      (n : ℤ) (log : List Event) → Guarded plan log → Taken n (exec_retrying s (take_lock n) log)
  unfolding tell retry_contention
  take_lock-Taken n log g =
      retry-rule s (Guarded plan) (Taken n) (tell s (take_lock n))
        (λ l k. (
          (tt, k),
          λ fine granted. taken-progress n (tell s (take_lock n) l).1 (progress l) fine granted,
        ))
        (λ l e k failed. (tt, k)) 8 _ log g (g, λ fine granted. absurd cc)

  lock_and_run-Guarded :
      (n : ℤ) (log : List Event) → Guarded plan log → Guarded plan (lock_and_run s n (plan n) log).0
  unfolding lock_and_run
  lock_and_run-Guarded n log g =
      let l = exec_retrying s (take_lock n) log in
      let t = take_lock-Taken n log g in
      let Q : List Event × Turn → Type 0 = λ r. Guarded plan r.0 in
      option_cases Q l.1.err
        (λ fine.
          bool_cases Q (l.1.value == 0) (λ held. t.0)
            (λ granted. run_locked-Guarded n l.0 (t.0, t.1 fine granted)))
        (λ e failed. t.0)

  unless_completed-Guarded :
      (n : ℤ) (log : List Event)
      → Guarded plan log
      → Guarded plan (unless_completed s n (plan n) log).0
  unfolding unless_completed tell
  unless_completed-Guarded n log g =
      let first = retrying-keeps s (Guarded plan) (read_completed n) (λ l k. (tt, k)) log g in
      let l = exec_retrying s (read_completed n) log in
      let Q : List Event × Turn → Type 0 = λ r. Guarded plan r.0 in
      option_intro Q l.1.err
        (bool_intro Q (l.1.value == 0) (lock_and_run-Guarded n l.0 first) first) (λ e. first)

  pub turn-Guarded :
      (d : Driver) (n : ℤ) (log : List Event)
      → Guarded plan log
      → Guarded plan (turn s d n (plan n) log).0
  unfolding turn tell
  turn-Guarded d n log g =
      let first = retrying-keeps s (Guarded plan) (insert n) (λ l k. (tt, k)) log g in
      let l = exec_retrying s (insert n) log in
      let Q : List Event × Turn → Type 0 = λ r. Guarded plan r.0 in
      option_intro Q l.1.err (unless_completed-Guarded n l.0 first)
        (λ e. bool_intro Q (is_duplicate s d e) (unless_completed-Guarded n l.0 first) first)
