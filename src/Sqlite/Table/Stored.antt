-- ===== src/Sqlite/Table/Stored.antt =====
-- The trees of pages of the file format of SQLite, which utils/sqlite/table.ts scans.
use hydrui.Base.{ℕ, suc, ◌+◌, ◌*◌, ◌^◌, ◌<◌, ◌≤◌, ◌≡◌, some, List, [], ◌∷◌, ◌++◌, length, Text}
use hydrui.Sqlite.View.{View, pos}
use hydrui.Sqlite.View.Varint.{Holds, marked, digits}
use hydrui.Sqlite.Record.Columns.{number_from}
use hydrui.Sqlite.Tree.{header_offset, table_leaf, table_interior}
use hydrui.Sqlite.Tree.Header.{two, IsHeader}
use hydrui.Sqlite.Table.{TableRow}
use hydrui.Sqlite.Table.Cells.{LeafCell}

-- The window of a page that lies in the file.
abbrev pub page_at : View → ℕ → ℕ → View
page_at main page_size n = record {
  buffer = main.buffer;
  byte_offset = main.byte_offset + n * page_size;
  byte_length = page_size;
  offset = 0;
  page_number = some (pos (suc n));
}

module _ (decode : List ℕ → Text) where
  -- The rows of a leaf page from the cell `i` on.
  pub data LeafCells (page : View) : ℕ → List TableRow → Type 0 where
    no_rows : {i : ℕ} → LeafCells page i []
    next_row :
        {i : ℕ} {row : TableRow} {rows : List TableRow} (a b : ℕ)
        → Holds page (8 + i * 2 + header_offset page) (a ∷ b ∷ [])
        → LeafCell decode page (two a b) row
        → LeafCells page (suc i) rows
        → LeafCells page i (row ∷ rows)

  module _ (main : View) (page_size : ℕ) where
    mutual
      -- The rows of the tree of at most so many levels whose root is the page behind `n` others.
      pub data Stored : ℕ → ℕ → List TableRow → Type 0 where
        leaf_page :
            {levels n : ℕ} {rows : List TableRow}
            → main.byte_offset + suc n * page_size ≤ length main.buffer
            → IsHeader (page_at main page_size n) table_leaf (length rows)
            → LeafCells (page_at main page_size n) 0 rows
            → Stored (suc levels) n rows
        interior_page :
            {levels n m last : ℕ} {rows last_rows : List TableRow} (right : List ℕ)
            → main.byte_offset + suc n * page_size ≤ length main.buffer
            → IsHeader (page_at main page_size n) table_interior m
            → length right ≡ 4
            → Holds (page_at main page_size n) (8 + header_offset (page_at main page_size n)) right
            → number_from 0 right ≡ suc last
            → Children levels (page_at main page_size n) 0 m rows
            → Stored levels last last_rows
            → Stored (suc levels) n (rows ++ last_rows)

      -- The rows under the cells of an interior page from the cell `i` on, with the left page of each: its number and
      -- its key, which is a varint of at most eight bytes.
      pub data Children : ℕ → View → ℕ → ℕ → List TableRow → Type 0 where
        no_children : {levels i : ℕ} {page : View} → Children levels page i 0 []
        next_child :
            {levels i m child : ℕ} {page : View} {rows more : List TableRow} (a b k key : ℕ)
            (left : List ℕ)
            → Holds page (12 + i * 2 + header_offset page) (a ∷ b ∷ [])
            → length left ≡ 4
            → number_from 0 left ≡ suc child
            → k < 8
            → key < 128 ^ suc k
            → key < 2 ^ 31
            → Holds page (two a b) (left ++ marked (digits (suc k) key []))
            → Stored levels child rows
            → Children levels page (suc i) m more
            → Children levels page i (suc m) (rows ++ more)
