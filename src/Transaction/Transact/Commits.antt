-- ===== src/Transaction/Transact/Commits.antt =====
-- db.go: what the log of the database holds when `transactOnce` and `Transact` are done.
use mathlib.Core.List.{append_assoc}
use mathlib.Core.Path.{subst}
use sequel.Base.{
  ℕ, zero, suc, ◌+◌, ◌≡◌, refl, sym, ap, ◌∙◌, Bool, true, false, List, [], ◌∷◌, ◌++◌, Option, none,
  some, arith, if◌then◌else◌, Bool-cases, Option-cases, ◌⊎◌, inl, inr,
}
use sequel.Driver.{Driver, is_mssql}
use sequel.Transaction.Latch.Calls.{fine-Latched}
use sequel.Transaction.Latch.{all_fine, is_commit, commits, committed, Latched}
use sequel.Transaction.Transact.{
  Program, run, begun, undo, settle, transact_once, attempts, transact, send,
}
use sequel.Transaction.{
  Fault, tx_done, Request, begin, xact_abort, commit, rollback, Sent, Outside, Tx, batch_pending,
  commit_tx, rollback_tx, finished, finalize, ask,
}
use sequel.Transaction.Transact.Closure.{LeavesCommit, run-Latched}

-- What an attempt did, whose database log was `base`, by its log and its error: a commit that the
-- database accepted, behind requests of which none failed and none was a commit; or no commit.
pub data Outcome (base : List Sent) : List Sent × Option Fault → Type 0 where
  committed_all :
      {log : List Sent} (since : List Sent)
      → log ≡ record { request = commit; answer = none } ∷ (since ++ base)
      → all_fine since ≡ true
      → committed since ≡ 0
      → Outcome base (log, none)
  undone :
      {log : List Sent} (since : List Sent) (e : Fault)
      → log ≡ since ++ base
      → committed since ≡ 0
      → Outcome base (log, some e)

module _ (o : Outside) (base : List Sent) where
  rolled_back :
      (tx : Tx) (since : List Sent) (a : Option Fault)
      → tx.log ≡ since ++ base
      → committed since ≡ 0
      → (more : List Sent) × (record { request = rollback; answer = a } ∷ tx.log ≡ more ++ base)
        × (committed more ≡ 0)
  rolled_back tx since none l u =
      (_ ∷ since, ap (◌∷◌ (record { request = rollback; answer = none })) l, omega (arith, u))
  rolled_back tx since (some e) l u =
      (_ ∷ since, ap (◌∷◌ (record { request = rollback; answer = some e })) l, omega (arith, u))

  undo-Outcome :
      (tx : Tx) (since : List Sent) (e : Fault)
      → tx.log ≡ since ++ base
      → committed since ≡ 0
      → Outcome base (undo o tx (some e))
  unfolding rollback_tx finalize ask
  undo-Outcome tx since e l u = elim (Bool-cases tx.done) [
    | inl over ↦ rw (over, finalize) (undone since e l u)
    | inr going ↦
        let (more, m, v) = rolled_back tx since (o.answer tx.log rollback) l u in
        elim (Option-cases (o.answer tx.log rollback)) [
          | inl ended ↦ rw (going, finalize) (rw (ended, finalize) (undone more e m v))
          | inr (f, failed) ↦ rw (going, finalize) (rw (failed, finalize) (undone more e m v))
        ]
  ]

  -- A commit is refused before it reaches the database, or by the database, or accepted.
  commit_tx-cases :
      (tx : Tx)
      → batch_pending tx ≡ none
      → (commit_tx o tx ≡ (tx, some tx_done))
        ⊎ (((e : Fault) × (commit_tx o tx ≡ (
          record tx { log = record { request = commit; answer = some e } ∷ tx.log },
          some e,
        )))
            ⊎ ((t : Tx) × (commit_tx o tx ≡ (t, none))
                × (t.log ≡ record { request = commit; answer = none } ∷ tx.log)))
  unfolding commit_tx finalize ask
  commit_tx-cases tx h = elim (Bool-cases tx.done) [
    | inl over ↦ inl (rw (h, commit_tx) (rw (over, finalize) refl))
    | inr going ↦ go (o.answer tx.log commit) (rw (h, commit_tx) (ap branch going))
  ]
    where
      branch : Bool → Tx × Option Fault
      branch b = if b then (tx, some tx_done) else finished o (ask o commit tx)

      go :
          (a : Option Fault)
          → commit_tx o tx
            ≡ finished o (record tx { log = record { request = commit; answer = a } ∷ tx.log }, a)
          → (commit_tx o tx ≡ (tx, some tx_done))
            ⊎ (((e : Fault) × (commit_tx o tx ≡ (
              record tx { log = record { request = commit; answer = some e } ∷ tx.log },
              some e,
            )))
                ⊎ ((t : Tx) × (commit_tx o tx ≡ (t, none))
                    × (t.log ≡ record { request = commit; answer = none } ∷ tx.log)))
      go none asked = inr (inr (_, asked, refl))
      go (some e) asked = inr (inl (e, asked))

  settle-Outcome : (tx : Tx) (err : Option Fault) → Latched base tx → Outcome base (settle o tx err)
  unfolding settle
  settle-Outcome tx (some e) l = undo-Outcome tx l.since e l.log_is l.uncommitted
  settle-Outcome tx none l = elim (Option-cases tx.err) [
    | inr (e, failed) ↦ rw (failed, settle) (undo-Outcome tx l.since e l.log_is l.uncommitted)
    | inl well ↦ elim (Option-cases (batch_pending tx)) [
      | inr (e, pending) ↦
          rw (well, settle)
            (rw (pending, settle) (undo-Outcome tx l.since e l.log_is l.uncommitted))
      | inl settled ↦
          rw (well, settle)
            (rw (settled, settle)
              (elim (commit_tx-cases tx settled) [
                | inl over ↦
                    rw (over, settle) (undo-Outcome tx l.since tx_done l.log_is l.uncommitted)
                | inr (inl (e, refused)) ↦
                    rw (refused, settle)
                      (undo-Outcome _ (record { request = commit; answer = some e } ∷ l.since) e
                        (ap (◌∷◌ (record { request = commit; answer = some e })) l.log_is)
                        (omega (arith, l.uncommitted)))
                | inr (inr (t, accepted, logged)) ↦
                    rw (accepted, settle)
                      (committed_all l.since
                        (logged ∙ ap (◌∷◌ (record { request = commit; answer = none })) l.log_is)
                        (l.latched well) l.uncommitted)
              ]))
    ]
  ]

  begun-Latched : Latched base (begun o base)
  begun-Latched = record {
    auto = refl;
    since = [];
    log_is = refl;
    latched = λ h. refl;
    uncommitted = refl;
  }

  commits-other : (r : Request) (a : Option Fault) → is_commit r ≡ false → commits r a ≡ 0
  commits-other r none h = rw h refl
  commits-other r (some e) h = refl

  -- One more answer before the closure runs.
  ready-Latched :
      (r : Request) (log : List Sent)
      → is_commit r ≡ false
      → o.answer log r ≡ none
      → Latched base (begun o log)
      → Latched base (begun o (record { request = r; answer = o.answer log r } ∷ log))
  ready-Latched r log h a l =
      fine-Latched o base r (o.answer log r) (begun o log) (rw a refl) (rw (a, h) refl) l

  body-Outcome :
      (fn : Program) (log : List Sent)
      → LeavesCommit fn
      → Latched base (begun o log)
      → Outcome base (settle o (run o fn (begun o log)).0 (run o fn (begun o log)).1)
  body-Outcome fn log p l =
      settle-Outcome (run o fn (begun o log)).0 (run o fn (begun o log)).1
        (run-Latched o base fn (begun o log) p l)

  -- An attempt whose closure leaves the commit to it either returns no error and has committed, with
  -- no failure among the answers to all of its requests before; or returns an error and has not
  -- committed.
  pub transact_once-Outcome :
      (d : Driver) (fn : Program) → LeavesCommit fn → Outcome base (transact_once o d fn base)
  unfolding transact_once send
  transact_once-Outcome d fn p = elim (Option-cases (o.answer base begin)) [
    | inr (e, closed) ↦
        rw (closed, transact_once, send)
          (undone (record { request = begin; answer = o.answer base begin } ∷ []) e refl
            (rw closed refl))
    | inl opened ↦
        let l = ready-Latched begin base refl opened begun-Latched in
        let log = record { request = begin; answer = o.answer base begin } ∷ base in
        elim (Bool-cases (is_mssql d)) [
          | inr other ↦
              rw (opened, transact_once, send) (rw (other, transact_once) (body-Outcome fn log p l))
          | inl server ↦
              rw (opened, transact_once, send)
                (rw (server, transact_once)
                  (elim (Option-cases (o.answer log xact_abort)) [
                    | inl aborts ↦
                        rw (aborts, transact_once, send)
                          (body-Outcome fn _ p (ready-Latched xact_abort log refl aborts l))
                    | inr (e, refused) ↦
                        rw (refused, transact_once, send)
                          (undo-Outcome _
                            (record { request = xact_abort; answer = o.answer log xact_abort }
                              ∷ record { request = begin; answer = o.answer base begin }
                              ∷ [])
                            e refl
                            (omega (
                              arith,
                              commits-other xact_abort (o.answer log xact_abort) refl,
                              commits-other begin (o.answer base begin) refl,
                            )))
                  ]))
        ]
  ]

-- What one outcome leaves, seen from an earlier log.
earlier :
    (base : List Sent) {log : List Sent} (before since : List Sent)
    → log ≡ since ++ (before ++ base)
    → log ≡ (since ++ before) ++ base
earlier base before since h = h ∙ sym (append_assoc since before base)

committed-concat :
    (ss ts : List Sent) → committed ss ≡ 0 → committed ts ≡ 0 → committed (ss ++ ts) ≡ 0
committed-concat [] ts h k = k
committed-concat (s ∷ ss) ts h k = omega (arith, h, k, committed-concat ss ts (omega (arith, h)) k)

undone_log :
    {base log : List Sent} {e : Fault}
    → Outcome base (log, some e)
    → (since : List Sent) × (log ≡ since ++ base) × (committed since ≡ 0)
undone_log (undone since e l u) = (since, l, u)

module _ (o : Outside) (contention : Fault → Bool) (d : Driver) (fn : ℕ → Program) where
  attempts-Outcome :
      (left n : ℕ) (e : Fault) (base before : List Sent)
      → ((i : ℕ) → LeavesCommit (fn i))
      → committed before ≡ 0
      → (failed : List Sent) × (committed failed ≡ 0)
        × Outcome (failed ++ base) (attempts o contention d fn left n (some e) (before ++ base))
  unfolding attempts
  attempts-Outcome zero n e base before p h = (before, h, undone [] e refl refl)
  attempts-Outcome (suc left) n e base before p h =
      let out = transact_once-Outcome o (before ++ base) d (fn n) (p n) in
      let tried = transact_once o d (fn n) (before ++ base) in
      elim (Option-cases tried.1) [
        | inl well ↦ (
          before,
          h,
          rw (well, attempts) (subst (λ f. Outcome (before ++ base) (tried.0, f)) well out),
        )
        | inr (f, failed) ↦
            let undo = subst (λ g. Outcome (before ++ base) (tried.0, g)) failed out in
            elim (Bool-cases (contention f)) [
              | inr fatal ↦ (before, h, rw (failed, attempts) (rw (fatal, attempts) undo))
              | inl retry ↦
                  let (since, l, u) = undone_log undo in
                  let (all, v, last) =
                    attempts-Outcome left (n + 1) f base (since ++ before) p
                      (committed-concat since before u h) in
                  (
                    all,
                    v,
                    rw (failed, attempts)
                        (rw (retry, attempts) (rw (earlier base before since l) last)),
                  )
            ]
      ]

-- `Transact`, whose closure leaves the commit to it at every attempt: all the attempts but the last
-- committed nothing, and the last either returned no error and committed, with no failure among the
-- answers to its requests before; or returned the error, and committed nothing either.
pub transact-Outcome :
    (o : Outside) (contention : Fault → Bool) (d : Driver) (fn : ℕ → Program) (base : List Sent)
    → ((i : ℕ) → LeavesCommit (fn i))
    → (failed : List Sent) × (committed failed ≡ 0)
      × Outcome (failed ++ base) (transact o contention d fn base)
unfolding transact attempts
transact-Outcome o contention d fn base p =
    attempts-Outcome o contention d fn 8 0 tx_done base [] p refl
