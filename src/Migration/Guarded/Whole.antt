-- ===== src/Migration/Guarded/Whole.antt =====
-- db.go: Migrate as a whole keeps its log guarded.
use sequel.Base.Cases.{option_intro, bool_intro}
use sequel.Base.{ℕ, zero, suc, Bool, true, false, List, [], ◌∷◌, Option, none, some, Bytes}
use sequel.Base.Int.{ℤ, pos}
use sequel.Driver.{Driver}
use sequel.Migration.{make_table, Event, Server, Ended, tell, turn}
use sequel.Migration.Files.{File, read_files, sorted_numbers}
use sequel.Migration.Migrate.{
  Watermark, at, table_failed, read_failed, create_migrations_table, table_once, once_more,
  find_watermark, migrate_pending, migrate_from, migrate, plan_of, is_supported,
}
use sequel.Transaction.{Fault}
use sequel.Migration.Guarded.{Guarded, turn_intro, turn-Guarded}

module _ (s : Server) (plan : ℤ → List Bytes) where
  migrate_pending-Guarded :
      (fuel : ℕ) (d : Driver) (ns : List ℤ) (log : List Event)
      → Guarded plan log
      → Guarded plan (migrate_pending s fuel d plan ns log).0
  unfolding migrate_pending
  migrate_pending-Guarded fuel d [] log g = g
  migrate_pending-Guarded zero d (n ∷ ns) log g = g
  migrate_pending-Guarded (suc fuel) d (n ∷ ns) log g =
      let l = turn s d n (plan n) log in
      let first = turn-Guarded s plan d n log g in
      turn_intro {A = List Event × Ended} (λ r. Guarded plan r.0) l.1
        (migrate_pending-Guarded fuel d ns l.0 first)
        (migrate_pending-Guarded fuel d (n ∷ ns) l.0 first) (λ e. first)

  create_migrations_table-Guarded :
      (log : List Event) → Guarded plan log → Guarded plan (create_migrations_table s log).0
  unfolding create_migrations_table tell
  create_migrations_table-Guarded log g =
      option_intro {A = List Event × Option Fault} (λ r. Guarded plan r.0)
        (tell s make_table log).1.err (tt, g) (λ e. (tt, (tt, g)))

  table_once-Guarded :
      (ready : Bool) (log : List Event) → Guarded plan log → Guarded plan (table_once s ready log).0
  unfolding tell
  table_once-Guarded true log g = (tt, g)
  table_once-Guarded false log g =
      let first = create_migrations_table-Guarded log g in
      option_intro {A = List Event × Watermark} (λ r. Guarded plan r.0)
        (create_migrations_table s log).1 (tt, first) (λ e. first)

  once_more-Guarded :
      (ready : Bool) (r : List Event × Watermark)
      → Guarded plan r.0
      → Guarded plan (once_more s ready r).0
  once_more-Guarded true (log, read_failed e) g = table_once-Guarded false log g
  once_more-Guarded true (log, at w) g = g
  once_more-Guarded true (log, table_failed e) g = g
  once_more-Guarded false (log, w) g = g

  find_watermark-Guarded :
      (ready : Bool) (log : List Event)
      → Guarded plan log
      → Guarded plan (find_watermark s ready log).0
  unfolding find_watermark
  find_watermark-Guarded ready log g =
      once_more-Guarded ready (table_once s ready log) (table_once-Guarded ready log g)

abbrev mark_of : Watermark → ℤ
mark_of (at mark) = mark
mark_of (table_failed e) = pos 0
mark_of (read_failed e) = pos 0

migrate_from-Guarded :
    (s : Server) (fuel : ℕ) (d : Driver) (dir_err : Option Fault) (files : List File)
    (log : List Event) (w : Watermark)
    → Guarded (plan_of d (read_files (mark_of w) files).0) log
    → Guarded
        (plan_of d (read_files (mark_of w) files).0)
        (migrate_from s fuel d dir_err files (log, w)).0
migrate_from-Guarded s fuel d dir_err files log (table_failed e) g = g
migrate_from-Guarded s fuel d dir_err files log (read_failed e) g = g
migrate_from-Guarded s fuel d (some e) files log (at mark) g = g
migrate_from-Guarded s fuel d none files log (at mark) g =
    let read = read_files mark files in
    option_intro {A = List Event × Ended} (λ r. Guarded (plan_of d read.0) r.0) read.1
      (migrate_pending-Guarded s (plan_of d read.0) fuel d (sorted_numbers read.0) log g) (λ e. g)

-- Migrate, on a server of its own choosing: there is a watermark such that, in the log that Migrate
-- leaves, every statement of a migration was run while the lock that was taken last was of that
-- migration and just the statements before it, of those that its file has for the driver, had run since,
-- none with an error; and a migration was marked as completed only when all of them had.
pub migrate-Guarded :
    (s : Server) (fuel : ℕ) (d : Driver) (ready : Bool) (dir_err : Option Fault) (files : List File)
    → (mark : ℤ) × Guarded
        (plan_of d (read_files mark files).0)
        (migrate s fuel d ready dir_err files []).0
unfolding migrate
migrate-Guarded s fuel d ready dir_err files =
    let w = find_watermark s ready [] in
    let mark = mark_of w.1 in
    let plan = plan_of d (read_files mark files).0 in
    (
      mark,
      bool_intro {A = List Event × Ended} (λ r. Guarded plan r.0) (is_supported d)
          (migrate_from-Guarded s fuel d dir_err files w.0 w.1
            (find_watermark-Guarded s plan ready [] tt))
          tt,
    )
