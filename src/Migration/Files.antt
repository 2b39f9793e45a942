-- ===== src/Migration/Files.antt =====
-- db.go: the migrations of a directory that Migrate is to run. An entry of the directory is its name with its
-- content, or the error of reading it.
use sequel.Base.{
  Bool, true, false, not, ◌&&◌, ◌||◌, List, [], ◌∷◌, Option, none, some, Bytes, codes, reverse,
  has_prefix, leb, ◌==◌, if◌then◌else◌,
}
use sequel.Base.Int.{ℤ, pos, negsuc, parse_int}
use sequel.Transaction.{Fault}

pub record File : Type 0 where
  pub name : Bytes
  pub content : Bytes
  pub read_err : Option Fault

-- A migration: its number and its content.
pub record Migration : Type 0 where
  pub number : ℤ
  pub content : Bytes

-- `a <= b` on integers.
abbrev pub leb_ℤ : ℤ → ℤ → Bool
leb_ℤ (pos a) (pos b) = leb a b
leb_ℤ (pos a) (negsuc b) = false
leb_ℤ (negsuc a) (pos b) = true
leb_ℤ (negsuc a) (negsuc b) = leb b a

-- `strings.HasSuffix(name, ".sql")`
unfoldable pub is_sql : Bytes → Bool
is_sql name = has_prefix (reverse name) (reverse (codes ".sql"))

-- `strings.Cut(name, ".")`, what stands before.
abbrev pub before_dot : Bytes → Bytes
before_dot [] = []
before_dot (c ∷ cs) = let rest = before_dot cs in if c == b'.' then [] else c ∷ rest

-- The number of a file that names a migration.
unfoldable pub number_of : File → Option ℤ
number_of file = if is_sql file.name then parse_int (before_dot file.name) else none

-- The number of a file that is read, if it is behind the watermark.
unfoldable pub wanted : ℤ → File → Option ℤ
wanted watermark file = elim (number_of file) [
  | none ↦ none
  | some n ↦ if leb_ℤ n watermark then none else some n
]

-- The migrations behind the watermark in the order of the directory, and the error that ended the reading.
unfoldable pub read_files : ℤ → List File → List Migration × Option Fault
read_files watermark [] = ([], none)
read_files watermark (file ∷ files) = elim (wanted watermark file) [
  | none ↦ read_files watermark files
  | some n ↦ elim file.read_err [
    | some e ↦ ([], some e)
    | none ↦
        let (rest, err) = read_files watermark files in
        (record { number = n; content = file.content } ∷ rest, err)
  ]
]

-- `slices.Sort` of the numbers.
unfoldable pub insert_sorted : ℤ → List ℤ → List ℤ
insert_sorted n [] = n ∷ []
insert_sorted n (m ∷ ms) = elim (leb_ℤ n m) [ true ↦ n ∷ (m ∷ ms) | false ↦ m ∷ insert_sorted n ms ]

unfoldable pub sorted_numbers : List Migration → List ℤ
sorted_numbers [] = []
sorted_numbers (m ∷ ms) = insert_sorted m.number (sorted_numbers ms)

-- `migrations[n]`: a later file of the same number replaces an earlier one.
unfoldable pub content_of : ℤ → List Migration → Bytes
content_of n [] = []
content_of n (m ∷ ms) =
    if (leb_ℤ m.number n && leb_ℤ n m.number) && not (has_number n ms)
    then m.content
    else content_of n ms
  where
    has_number : ℤ → List Migration → Bool
    has_number n [] = false
    has_number n (m ∷ ms) = (leb_ℤ m.number n && leb_ℤ n m.number) || has_number n ms
