-- ===== src/Batch/Rows.antt =====
-- batch.go: `bufferedRows`. A row is what the driver keeps of it; scanning it is the driver's.
use mathlib.Core.List.{append_assoc}
use mathlib.Core.Path.{subst}
use sequel.Base.{
  ℕ, zero, suc, ◌+◌, ◌-◌, ◌<◌, ◌≡◌, refl, sym, ◌∙◌, Bool, true, false, ◌&&◌, ◌||◌, List, [], ◌∷◌,
  ◌++◌, Option, none, some, arith, length, length-append, ap, get_elem?, set, ltb, leb, ◌==◌,
  if◌then◌else◌, length-set,
}

-- A row that was released is none.
pub record BufferedRows (R : Type 0) : Type 0 where
  pub rows : List (Option R)
  pub next : ℕ

module _ {R : Type 0} where
  -- `rows[next-1] = nil`, behind its test.
  abbrev pub released : BufferedRows R → List (Option R)
  released r =
      if ltb 0 r.next && leb r.next (length r.rows) then set r.rows (r.next - 1) none else r.rows

  -- `Next`
  unfoldable pub next_row : BufferedRows R → BufferedRows R × Bool
  next_row r =
      if leb (length r.rows) r.next
      then (record { rows = released r; next = length r.rows + 1 }, false)
      else (record { rows = released r; next = r.next + 1 }, true)

  -- `Scan`, up to the driver's part: the row that is scanned.
  unfoldable pub scan_row : BufferedRows R → Option R
  scan_row r =
      if r.next == 0 || ltb (length r.rows) r.next
      then none
      else elim (get_elem? r.rows (r.next - 1)) [ none ↦ none | some row ↦ row ]

  -- `Close`
  unfoldable pub close_rows : BufferedRows R → BufferedRows R
  close_rows r = record { rows = []; next = 1 }

  -- `for rows.Next() { rows.Scan(...) }`, for a number of rounds.
  unfoldable pub read_all : ℕ → BufferedRows R → BufferedRows R × List (Option R)
  read_all zero r = (r, [])
  read_all (suc fuel) r =
      let (s, more) = next_row r in
      let (t, rest) = read_all fuel s in if more then (t, scan_row s ∷ rest) else (s, [])

  abbrev pub kept : List R → List (Option R)
  kept [] = []
  kept (x ∷ xs) = some x ∷ kept xs

  set-append :
      (xs ys : List (Option R)) (i : ℕ) (v : Option R)
      → i < length xs
      → set (xs ++ ys) i v ≡ set xs i v ++ ys
  set-append [] ys i v h = absurd (omega arith)
  set-append (x ∷ xs) ys zero v h = refl
  set-append (x ∷ xs) ys (suc i) v h = ap (◌∷◌ x) (set-append xs ys i v (omega arith))

  get_elem?-append :
      (xs : List (Option R)) (y : Option R) (ys : List (Option R))
      → get_elem? (xs ++ (y ∷ ys)) (length xs) ≡ some y
  get_elem?-append [] y ys = refl
  get_elem?-append (x ∷ xs) y ys = get_elem?-append xs y ys

  abbrev at_row : List (Option R) → List R → BufferedRows R
  at_row read rest = record { rows = read ++ kept rest; next = length read }

  -- Releasing the row that is left changes only what was read.
  released-read :
      (read : List (Option R)) (rest : List R)
      → (read' : List (Option R)) × (length read' ≡ length read)
        × (released (at_row read rest) ≡ read' ++ kept rest)
  released-read [] rest = ([], refl, refl)
  released-read (x ∷ xs) rest =
      let size = length-append xs (kept rest) in
      let inside : (ltb 0 (suc (length xs))
            && leb (suc (length xs)) (suc (length (xs ++ kept rest))))
          ≡ true =
        ground (arith, size) in
      (
        set (x ∷ xs) (suc (length xs) - 1) none,
        length-set (x ∷ xs) (suc (length xs) - 1) none,
        rw inside (set-append (x ∷ xs) (kept rest) (suc (length xs) - 1) none (omega arith)),
      )

  next_row-end : (read : List (Option R)) → (next_row (at_row read [])).1 ≡ false
  unfolding next_row
  next_row-end read = let size = length-append read [] in ground (arith, size)

  -- The state at a row, from its parts.
  at_row-parts :
      (read read' : List (Option R)) (x : R) (xs : List R)
      → length read' ≡ length read
      → record { rows = read' ++ kept (x ∷ xs); next = length read + 1 }
        ≡ at_row (read' ++ (some x ∷ [])) xs
  at_row-parts read read' x xs h =
      let size = length-append read' (some x ∷ []) in
      let count : length read + 1 ≡ length (read' ++ (some x ∷ [])) = omega (arith, h, size) in
      ap (λ n. record { rows = read' ++ kept (x ∷ xs); next = n }) count
      ∙ ap (λ r. record { rows = r; next = length (read' ++ (some x ∷ [])) })
          (sym (append_assoc read' (some x ∷ []) (kept xs)))

  next_row-more :
      (read : List (Option R)) (x : R) (xs : List R)
      → (read' : List (Option R)) × (length read' ≡ length read)
        × (next_row (at_row read (x ∷ xs)) ≡ (at_row (read' ++ (some x ∷ [])) xs, true))
  unfolding next_row
  next_row-more read x xs =
      let (read', same, left) = released-read read (x ∷ xs) in
      let size = length-append read (kept (x ∷ xs)) in
      let more : leb (length (read ++ kept (x ∷ xs))) (length read) ≡ false =
        ground (arith, size) in
      (
        read',
        same,
        rw (more, next_row)
            (ap (λ r. (record { rows = r; next = length read + 1 }, true)) left
              ∙ ap (λ s. (s, true)) (at_row-parts read read' x xs same)),
      )

  scan_row-at :
      (read : List (Option R)) (x : R) (xs : List R)
      → scan_row (at_row (read ++ (some x ∷ [])) xs) ≡ some x
  unfolding scan_row
  scan_row-at read x xs =
      let front = read ++ (some x ∷ []) in
      let size = length-append read (some x ∷ []) in
      let whole = length-append front (kept xs) in
      let inside : (length front == 0 || ltb (length (front ++ kept xs)) (length front)) ≡ false =
        ground (arith, size, whole) in
      let index : length front - 1 ≡ length read = omega (arith, size) in
      let found : get_elem? (front ++ kept xs) (length front - 1) ≡ some (some x) =
        ap (get_elem? (front ++ kept xs)) index
        ∙ ap (λ l. get_elem? l (length read)) (append_assoc read (some x ∷ []) (kept xs))
        ∙ get_elem?-append read (some x) (kept xs) in
      rw inside (rw found refl)

  -- The rows are at their end: none is left to step to, and the place is behind the last.
  abbrev pub AtEnd : ℕ → BufferedRows R → Type 0
  AtEnd n r =
      (r.next ≡ n + 1) × (length r.rows ≡ n) × ((next_row r).1 ≡ false) × (scan_row r ≡ none)

  behind-AtEnd : (r : BufferedRows R) (n : ℕ) → length r.rows ≡ n → r.next ≡ n + 1 → AtEnd n r
  unfolding next_row scan_row
  behind-AtEnd r n size place =
      (place, size, ground (arith, size, place), ground (arith, size, place))

  next_row-AtEnd : (read : List (Option R)) → AtEnd (length read) (next_row (at_row read [])).0
  unfolding next_row
  next_row-AtEnd read =
      let (read', same, left) = released-read read [] in
      let whole = length-append read [] in
      let size = length-append read' [] in
      let kept_size : length (released (at_row read [])) ≡ length read =
        ap length left ∙ omega (arith, same, size) in
      let ends : leb (length (read ++ [])) (length read) ≡ true = ground (arith, whole) in
      rw (ends, next_row)
        (behind-AtEnd (record { rows = released (at_row read []); next = length (read ++ []) + 1 })
          (length read) kept_size (omega (arith, whole)))

  -- The rows that were read, in order, and the end behind them.
  abbrev Reads : ℕ → List (Option R) → BufferedRows R × List (Option R) → Type 0
  Reads n out p = (p.1 ≡ out) × AtEnd n p.0

  stepped_end : (r : BufferedRows R) → (next_row r).1 ≡ false → read_all 1 r ≡ ((next_row r).0, [])
  unfolding read_all
  stepped_end r h = rw h refl

  stepped_more :
      (fuel : ℕ) (r s : BufferedRows R)
      → next_row r ≡ (s, true)
      → read_all (suc fuel) r ≡ ((read_all fuel s).0, scan_row s ∷ (read_all fuel s).1)
  unfolding read_all
  stepped_more fuel r s h = rw h refl

  read_all-from :
      (read : List (Option R)) (rest : List R)
      → Reads
          (length read + length rest)
          (kept rest)
          (read_all (suc (length rest)) (at_row read rest))
  read_all-from read [] =
      let none_left : length read ≡ length read + 0 = omega arith in
      subst (Reads (length read + 0) []) (sym (stepped_end (at_row read []) (next_row-end read)))
        (refl, subst (λ n. AtEnd n (next_row (at_row read [])).0) none_left (next_row-AtEnd read))
  read_all-from read (x ∷ xs) =
      let (read', same, step) = next_row-more read x xs in
      let (found, ends) = read_all-from (read' ++ (some x ∷ [])) xs in
      let size = length-append read' (some x ∷ []) in
      let count : length (read' ++ (some x ∷ [])) + length xs ≡ length read + suc (length xs) =
        omega (arith, same, size) in
      subst (Reads (length read + suc (length xs)) (kept (x ∷ xs)))
        (sym (stepped_more (suc (length xs)) (at_row read (x ∷ xs)) _ step))
        (
          ap (λ y. y ∷ (read_all (suc (length xs)) (at_row (read' ++ (some x ∷ [])) xs)).1)
                (scan_row-at read' x xs)
              ∙ ap (◌∷◌ (some x)) found,
          subst (λ n. AtEnd n (read_all (suc (length xs)) (at_row (read' ++ (some x ∷ [])) xs)).0)
              count ends,
        )

  -- A loop of Next and Scan over the rows of a batch reads every row once, in order, though each is released when
  -- it is left, and then ends: the place is behind the last row, Next steps no further, and there is no row to scan.
  pub read_all-kept :
      (rows : List R)
      → ((read_all (suc (length rows)) (record { rows = kept rows; next = 0 })).1 ≡ kept rows)
        × AtEnd
            (length rows)
            (read_all (suc (length rows)) (record { rows = kept rows; next = 0 })).0
  read_all-kept rows =
      let whole : 0 + length rows ≡ length rows = omega arith in
      subst (λ n. Reads n (kept rows) (read_all (suc (length rows)) (at_row [] rows))) whole
        (read_all-from [] rows)
