-- ===== src/Batch/Handed.antt =====
-- batchrows.go and batchrow.go: the rows that the results of a batch hand out, and what reading them does to the
-- results. The names of columns are left out.
use sequel.Base.{ℕ, Bool, true, false, List, Option, none, some, get_elem?, set, if◌then◌else◌}
use sequel.Batch.{RawRow, BatchItem, BatchResults, fail, or_else}
use sequel.Batch.Rows.{BufferedRows, next_row, scan_row, close_rows}
use sequel.Transaction.{
  Fault, no_rows, misuse, rows_superseded, raw_bytes, scan_without_row, rows_scan, rows_err,
  rows_close, Outside, Tx, record_err, ask, read_rows, rows_next,
}

-- `rowSource`: a result set of the database, or rows that are buffered.
pub data RowSource : Type 0 where
  streamed : RowSource
  buffered : BufferedRows RawRow → RowSource

pub record BatchRows : Type 0 where
  pub src : RowSource
  pub closed : Bool
  pub done : Bool
  pub superseded : Bool

-- The objects that a batch's results share: its items, the results, the rows that were handed out, in
-- the order of their handing out, and the transaction.
pub record Reading : Type 0 where
  pub items : List BatchItem
  pub results : BatchResults
  pub handed : List BatchRows
  pub tx : Tx

-- `BatchRows` by its number, or the error.
pub data QueryResult : Type 0 where
  failed : Fault → QueryResult
  handed_out : ℕ → QueryResult

-- `BatchResults.fail`
unfoldable pub fail_reading : Option Fault → Reading → Reading
fail_reading none s = s
fail_reading (some e) s = let (r, t) = fail e s.results s.tx in record s { results = r; tx = t }

abbrev pub write_rows : ℕ → BatchRows → Reading → Reading
write_rows h rows s = record s { handed = set s.handed h rows }

abbrev pub with_tx : Tx → Reading → Reading
with_tx tx s = record s { tx = tx }

-- `errSuperseded`
abbrev pub report_superseded : Reading → Reading
report_superseded s = record s { tx = record_err (some (misuse rows_superseded)) s.tx }

abbrev pub rows_at {ℓ} : {A : Type ℓ} → A → (BatchRows → A) → ℕ → Reading → A
rows_at missing f h s = elim (get_elem? s.handed h) [ none ↦ missing | some rows ↦ f rows ]

module _ (o : Outside) where
  abbrev pub source_err : RowSource → Tx → Tx × Option Fault
  source_err streamed tx = read_rows o rows_err tx
  source_err (buffered b) tx = (tx, none)

  abbrev pub source_next : RowSource → Tx → Tx × (RowSource × Bool)
  source_next streamed tx = let (t, more) = rows_next o tx in (t, (streamed, more))
  source_next (buffered b) tx = let (c, more) = next_row b in (tx, (buffered c, more))

  abbrev pub source_close : RowSource → Tx → Tx × (RowSource × Option Fault)
  source_close streamed tx = let (t, err) = ask o rows_close tx in (t, (streamed, err))
  source_close (buffered b) tx = (tx, (buffered (close_rows b), none))

  -- `BatchRows.Close` of `rows`, which have the number `h`.
  unfoldable pub close_handed : ℕ → BatchRows → Reading → Reading × Option Fault
  close_handed h rows s =
      if rows.closed
      then (s, none)
      else (let (t, (src, err)) = source_close rows.src s.tx in
          let (u, later) = source_err src t in
          (
            fail_reading later
                (with_tx u (write_rows h (record rows { src = src; closed = true }) s)),
            err,
          ))

  -- `BatchRows.Next`
  unfoldable pub next : ℕ → BatchRows → Reading → Reading × Bool
  next h rows s =
      if rows.superseded
      then (report_superseded s, false)
      else if rows.closed
      then (s, false)
      else (let (t, (src, more)) = source_next rows.src s.tx in
          if more
          then (with_tx t (write_rows h (record rows { src = src }) s), true)
          else (let (u, later) = source_err src t in
              (
                fail_reading later
                    (with_tx u (write_rows h (record rows { src = src; done = true }) s)),
                false,
              )))

  -- `BatchRows.Err`
  unfoldable pub err_of : BatchRows → Reading → Reading × Option Fault
  err_of rows s =
      if rows.superseded
      then (report_superseded s, some (misuse rows_superseded))
      else (let (t, err) = source_err rows.src s.tx in (with_tx t s, err))

  abbrev pub close_at : ℕ → Reading → Reading × Option Fault
  close_at h s = rows_at (s, none) (λ rows. close_handed h rows s) h s

  abbrev pub next_at : ℕ → Reading → Reading × Bool
  next_at h s = rows_at (s, false) (λ rows. next h rows s) h s

  abbrev pub err_at : ℕ → Reading → Reading × Option Fault
  err_at h s = rows_at (s, none) (λ rows. err_of rows s) h s

  -- The deferred Close of `BatchRow.Scan`.
  abbrev pub closing : ℕ → Reading × Option Fault → Reading × Option Fault
  closing h (s, err) = ((close_at h s).0, err)

  -- `BatchRow.Err`
  unfoldable pub row_err_of : QueryResult → Reading → Reading × Option Fault
  row_err_of (failed e) s = (s, some e)
  row_err_of (handed_out h) s = err_at h s

-- The database, and what the driver reports of the scan of a buffered row.
module _ (o : Outside) (scan : RawRow → Option Fault) where
  abbrev pub source_scan : RowSource → Tx → Tx × Option Fault
  source_scan streamed tx = read_rows o rows_scan tx
  source_scan (buffered b) tx =
      (tx, elim (scan_row b) [ none ↦ some (misuse scan_without_row) | some row ↦ scan row ])

  -- `BatchRows.Scan`
  unfoldable pub scan_into : BatchRows → Reading → Reading × Option Fault
  scan_into rows s =
      let (t, err) = source_scan rows.src s.tx in (fail_reading err (with_tx t s), err)

  abbrev pub scan_at : ℕ → Reading → Reading × Option Fault
  scan_at h s = rows_at (s, none) (λ rows. scan_into rows s) h s

  abbrev pub scan_first : Bool → ℕ → Reading → Reading × Option Fault
  scan_first raw h s =
      let (t, more) = next_at o h s in
      if more
      then (if raw
          then (fail_reading (some (misuse raw_bytes)) t, some (misuse raw_bytes))
          else (let (u, err) = scan_at h t in
              elim err [ some e ↦ (u, some e) | none ↦ close_at o h u ]))
      else (let (u, err) = err_at o h t in (u, or_else err (some no_rows)))

  -- `BatchRow.Scan`; `raw` is whether a destination is a RawBytes.
  unfoldable pub scan_row_of : Bool → QueryResult → Reading → Reading × Option Fault
  scan_row_of raw (failed e) s = (s, some e)
  scan_row_of raw (handed_out h) s =
      let first = closing o h (scan_first raw h s) in
      let superseded : Reading × Option Fault =
        (report_superseded s, some (misuse rows_superseded)) in
      rows_at first (λ rows. if rows.superseded then superseded else first) h s
