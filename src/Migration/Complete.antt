-- ===== src/Migration/Complete.antt =====
-- db.go: a migration that Migrate leaves behind is completed.
use sequel.Base.{
  ℕ, zero, suc, ◌≡◌, refl, ◌⊎◌, inl, inr, Bool, false, List, [], ◌∷◌, Option, none, some, Bytes,
  ◌==◌,
}
use sequel.Base.Cases.{option_cases, option_intro, bool_cases, bool_intro}
use sequel.Base.Int.{ℤ}
use sequel.Driver.{Driver}
use sequel.Migration.Files.{
  File, Migration, wanted, read_files, leb_ℤ, insert_sorted, sorted_numbers,
}
use sequel.Migration.Grows.{attempt-rule, turn-keeps}
use sequel.Migration.Guarded.{turn_intro}
use sequel.Migration.Migrate.{
  Watermark, at, table_failed, read_failed, find_watermark, migrate_pending, migrate_from, migrate,
  is_supported, plan_of,
}
use sequel.Migration.{
  Ask, insert, read_completed, take_lock, complete, Event, Server, Turn, next, again, stop, Ended,
  done, tell, retry_contention, exec_retrying, run_statements, run_err, run_locked, lock_and_run,
  unless_completed, is_duplicate, turn,
}
use sequel.Transaction.{Fault}

-- An event that shows the migration `n` to be completed: it was marked so, or read to be.
abbrev pub Shows : ℤ → Event → Type 0
Shows n e =
    ((e.ask ≡ complete n) × (e.answer.err ≡ none))
    ⊎ ((e.ask ≡ read_completed n) × (e.answer.err ≡ none) × ((e.answer.value == 0) ≡ false))

pub data Shown (n : ℤ) : List Event → Type 0 where
  here : {e : Event} {log : List Event} → Shows n e → Shown n (e ∷ log)
  there : {e : Event} {log : List Event} → Shown n log → Shown n (e ∷ log)

turn_cases {ℓ κ} :
    {A : Type ℓ} (P : A → Type κ) (t : Turn) {x y : A} {f : Fault → A}
    → (t ≡ next → P x)
    → P y
    → ((e : Fault) → P (f e))
    → P (elim t [ next ↦ x | again ↦ y | stop e ↦ f e ])
turn_cases P next p q r = p refl
turn_cases P again p q r = q
turn_cases P (stop e) p q r = r e

next-none : (m : Option Fault) → elim m [ some e ↦ stop e | none ↦ next ] ≡ next → m ≡ none
next-none none t = refl
next-none (some e) t = absurd cc

abbrev AllShown : List ℤ → List Event → Type 0
AllShown [] log = Unit {0}
AllShown (n ∷ ns) log = Shown n log × AllShown ns log

AllShown-insert_sorted :
    (n : ℤ) (ns : List ℤ) (log : List Event)
    → AllShown (insert_sorted n ns) log
    → Shown n log × AllShown ns log
unfolding insert_sorted
AllShown-insert_sorted n [] log h = (h.0, tt)
AllShown-insert_sorted n (m ∷ ms) log h =
    bool_intro (λ l. AllShown l log → Shown n log × AllShown (m ∷ ms) log) (leb_ℤ n m) (λ h. h)
      (λ h. let rest = AllShown-insert_sorted n ms log h.1 in (rest.0, (h.0, rest.1))) h

abbrev pub ShownIf : Option ℤ → List Event → Type 0
ShownIf none log = Unit {0}
ShownIf (some n) log = Shown n log

-- Every file that names a migration behind the watermark is of one that was shown to be completed.
abbrev pub FilesShown : ℤ → List File → List Event → Type 0
FilesShown mark [] log = Unit {0}
FilesShown mark (file ∷ files) log = ShownIf (wanted mark file) log × FilesShown mark files log

read_files-Shown :
    (mark : ℤ) (files : List File) (log : List Event)
    → (read_files mark files).1 ≡ none
    → AllShown (sorted_numbers (read_files mark files).0) log
    → FilesShown mark files log
unfolding read_files sorted_numbers
read_files-Shown mark [] log fine h = tt
read_files-Shown mark (file ∷ files) log fine h =
    let P : List Migration × Option Fault → Type 0 =
      λ r. r.1 ≡ none → AllShown (sorted_numbers r.0) log → FilesShown mark (file ∷ files) log in
    let rest = read_files mark files in
    option_cases P (wanted mark file)
      (λ no fine h. (rw no tt, read_files-Shown mark files log fine h))
      (λ n found.
        option_cases P file.read_err
          (λ readable fine h.
            let both = AllShown-insert_sorted n (sorted_numbers rest.0) log h in
            (rw found both.0, read_files-Shown mark files log fine both.1))
          (λ e bad no h. absurd cc))
      fine h

module _ (s : Server) where
  tell-Shown : (n : ℤ) (a : Ask) (l : List Event) → Shown n l → Shown n (tell s a l).0
  unfolding tell
  tell-Shown n a l h = there h

  complete-Shown :
      (n : ℤ) (log : List Event)
      → (exec_retrying s (complete n) log).1.err ≡ none
      → Shown n (exec_retrying s (complete n) log).0
  unfolding retry_contention tell
  complete-Shown n log =
      attempt-rule s (λ l. Unit {0}) (λ r. r.1.err ≡ none → Shown n r.0) (tell s (complete n))
        (λ l u h. here (inl (refl, h))) (λ l u. tt) 7 _ log tt

  read_completed-Shown :
      (n : ℤ) (log : List Event)
      → (exec_retrying s (read_completed n) log).1.err ≡ none
      → ((exec_retrying s (read_completed n) log).1.value == 0) ≡ false
      → Shown n (exec_retrying s (read_completed n) log).0
  unfolding retry_contention tell
  read_completed-Shown n log =
      attempt-rule s (λ l. Unit {0}) (λ r. r.1.err ≡ none → (r.1.value == 0) ≡ false → Shown n r.0)
        (tell s (read_completed n)) (λ l u h k. here (inr (refl, h, k))) (λ l u. tt) 7 _ log tt

  -- A turn that goes on to the next migration has shown its own to be completed.
  abbrev Turned : ℤ → List Event × Turn → Type 0
  Turned n r = r.1 ≡ next → Shown n r.0

  run_locked-Turned :
      (n : ℤ) (stmts : List Bytes) (log : List Event) → Turned n (run_locked s n stmts log)
  unfolding run_locked
  run_locked-Turned n stmts log =
      let ran = run_statements s none n stmts log in
      let r = exec_retrying s (complete n) ran.0 in
      option_cases (Turned n) (run_err ran.1)
        (λ fine t. complete-Shown n ran.0 (next-none r.1.err t)) (λ e failed no. absurd cc)

  lock_and_run-Turned :
      (n : ℤ) (stmts : List Bytes) (log : List Event) → Turned n (lock_and_run s n stmts log)
  unfolding lock_and_run
  lock_and_run-Turned n stmts log =
      let r = exec_retrying s (take_lock n) log in
      option_cases (Turned n) r.1.err
        (λ fine.
          bool_cases (Turned n) (r.1.value == 0) (λ zero no. absurd cc)
            (λ more. run_locked-Turned n stmts r.0))
        (λ e failed no. absurd cc)

  unless_completed-Turned :
      (n : ℤ) (stmts : List Bytes) (log : List Event) → Turned n (unless_completed s n stmts log)
  unfolding unless_completed
  unless_completed-Turned n stmts log =
      let r = exec_retrying s (read_completed n) log in
      option_cases (Turned n) r.1.err
        (λ fine.
          bool_cases (Turned n) (r.1.value == 0) (λ zero. lock_and_run-Turned n stmts r.0)
            (λ more t. read_completed-Shown n log fine more))
        (λ e failed no. absurd cc)

  turn-Turned :
      (d : Driver) (n : ℤ) (stmts : List Bytes) (log : List Event) → Turned n (turn s d n stmts log)
  unfolding turn
  turn-Turned d n stmts log =
      let r = exec_retrying s (insert n) log in
      option_intro (Turned n) r.1.err (unless_completed-Turned n stmts r.0) (λ e.
        bool_intro (Turned n) (is_duplicate s d e) (unless_completed-Turned n stmts r.0)
          (λ no. absurd cc))

  migrate_pending-Shown :
      (n : ℤ) (fuel : ℕ) (d : Driver) (plan : ℤ → List Bytes) (ns : List ℤ) (log : List Event)
      → Shown n log
      → Shown n (migrate_pending s fuel d plan ns log).0
  unfolding migrate_pending
  migrate_pending-Shown n fuel d plan [] log h = h
  migrate_pending-Shown n zero d plan (m ∷ ms) log h = h
  migrate_pending-Shown n (suc fuel) d plan (m ∷ ms) log h =
      let r = turn s d m (plan m) log in
      let first = turn-keeps s (Shown n) (tell-Shown n) d m (plan m) log h in
      turn_intro {A = List Event × Ended} (λ t. Shown n t.0) r.1
        (migrate_pending-Shown n fuel d plan ms r.0 first)
        (migrate_pending-Shown n fuel d plan (m ∷ ms) r.0 first) (λ e. first)

  -- A loop that is done has shown all of its migrations to be completed.
  abbrev DoneShown : List ℤ → List Event × Ended → Type 0
  DoneShown ns r = r.1 ≡ done → AllShown ns r.0

  migrate_pending-done :
      (fuel : ℕ) (d : Driver) (plan : ℤ → List Bytes) (ns : List ℤ) (log : List Event)
      → DoneShown ns (migrate_pending s fuel d plan ns log)
  unfolding migrate_pending
  migrate_pending-done fuel d plan [] log = λ t. tt
  migrate_pending-done zero d plan (n ∷ ns) log = λ no. absurd cc
  migrate_pending-done (suc fuel) d plan (n ∷ ns) log =
      let r = turn s d n (plan n) log in
      turn_cases (DoneShown (n ∷ ns)) r.1
        (λ h t. (
          migrate_pending-Shown n fuel d plan ns r.0 (turn-Turned d n (plan n) log h),
          migrate_pending-done fuel d plan ns r.0 t,
        ))
        (migrate_pending-done fuel d plan (n ∷ ns) r.0) (λ e no. absurd cc)

  migrate_from-Shown :
      (fuel : ℕ) (d : Driver) (dir_err : Option Fault) (files : List File) (log : List Event)
      (w : Watermark)
      → (migrate_from s fuel d dir_err files (log, w)).1 ≡ done
      → (mark : ℤ) × (w ≡ at mark)
        × FilesShown mark files (migrate_from s fuel d dir_err files (log, w)).0
  migrate_from-Shown fuel d dir_err files log (table_failed e) t = absurd cc
  migrate_from-Shown fuel d dir_err files log (read_failed e) t = absurd cc
  migrate_from-Shown fuel d (some e) files log (at mark) t = absurd cc
  migrate_from-Shown fuel d none files log (at mark) t =
      let read = read_files mark files in
      let P : List Event × Ended → Type 0 =
        λ r. r.1 ≡ done → (m : ℤ) × (at mark ≡ at m) × FilesShown m files r.0 in
      option_cases P read.1
        (λ fine t. (
          mark,
          refl,
          read_files-Shown mark files _ fine
              (migrate_pending-done fuel d (plan_of d read.0) (sorted_numbers read.0) log t),
        ))
        (λ e bad no. absurd cc) t

  -- Migrate that ends without an error has read a watermark, and every file whose number is behind it is of
  -- a migration that the log shows to be completed: marked so by Migrate, or found to be so.
  pub migrate-done :
      (fuel : ℕ) (d : Driver) (ready : Bool) (dir_err : Option Fault) (files : List File)
      (log : List Event)
      → (migrate s fuel d ready dir_err files log).1 ≡ done
      → (mark : ℤ) × ((find_watermark s ready log).1 ≡ at mark)
        × FilesShown mark files (migrate s fuel d ready dir_err files log).0
  unfolding migrate
  migrate-done fuel d ready dir_err files log t =
      let w = find_watermark s ready log in
      let P : List Event × Ended → Type 0 =
        λ r. r.1 ≡ done → (mark : ℤ) × (w.1 ≡ at mark) × FilesShown mark files r.0 in
      bool_intro P (is_supported d) (migrate_from-Shown fuel d dir_err files w.0 w.1)
        (λ no. absurd cc) t
