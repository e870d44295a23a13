-- ===== src/Sqlite/Table.antt =====
-- The tables of utils/sqlite/table.ts. What TextDecoder makes of bytes is a
-- parameter.
pub mod Cells
pub mod Stored
pub mod Scan
use hydrui.Base.{
  ℕ, zero, suc, ◌+◌, ◌-◌, ◌*◌, Bool, true, false, Option, none, some, List, [], ◌∷◌, ◌++◌, length,
  ltb, if◌then◌else◌, ◌==◌, ◌&&◌, ◌||◌, Text, codes, eq_text, Dict, insert, not,
}
use hydrui.Sqlite.View.{
  View, Result, and_then, ok, err, Failure, unknown_page_type, out_of_fuel, range_error, invalid,
  Reader, follow, ◌>>=◌, ◌>>◌, pure, throw, set_offset, ℤ, pos, negsuc, read_uint8, read_uint16,
  read_uint32, read_at, read_string, get_page_view,
}
use hydrui.Sqlite.Record.{ColumnValue, integer, big_integer, float, blob, text, null, parse_record}
use hydrui.Sqlite.Tree.{
  BTreeHeader, BTreeCell, parse_btree_header, read_btree_cells, read_cell_payload, table_leaf,
  table_interior, index_leaf, index_interior,
}

pub record TableRow : Type 0 where
  pub row_id : ℤ
  pub values : List ColumnValue

abbrev pub also : {A : Type 0} → Result (List A) → Result (List A) → Result (List A)
also (ok xs) (ok ys) = ok (xs ++ ys)
also (ok xs) (err e) = err e
also (err e) r = err e

abbrev pub value_of : {A : Type 0} → Result (A × View) → Result A
value_of (ok (a, v)) = ok a
value_of (err e) = err e

abbrev pub row_of : ℤ → Result (List ColumnValue) → Result (List TableRow)
row_of row_id (ok values) = ok (record { row_id = row_id; values = values } ∷ [])
row_of row_id (err e) = err e

-- A child page that is there, by the scan of a page.
abbrev pub child_rows : (ℕ → Result (List TableRow)) → Option ℕ → Result (List TableRow)
child_rows scan none = ok []
child_rows scan (some zero) = ok []
child_rows scan (some (suc n)) = scan (suc n)

unfoldable pub interior_rows :
    (ℕ → Result (List TableRow)) → List BTreeCell → Option ℕ → Result (List TableRow)
interior_rows scan [] right = child_rows scan right
interior_rows scan (cell ∷ cells) right =
    also (child_rows scan cell.left_child_page) (interior_rows scan cells right)

module _ (decode : List ℕ → Text) where
  -- A cell of a leaf: its payload is read in a window of its own.
  abbrev pub record_of : Result View → Result (List ColumnValue)
  record_of (ok payload) = value_of (parse_record decode payload)
  record_of (err e) = err e

  abbrev pub cell_row : Option ℤ → View → BTreeCell → ℕ → Result (List TableRow)
  cell_row none main cell page_size = ok []
  cell_row (some row_id) main cell page_size =
      row_of row_id (record_of (read_cell_payload main cell page_size))

  unfoldable pub leaf_rows : View → ℕ → List BTreeCell → Result (List TableRow)
  unfolding parse_record read_cell_payload
  leaf_rows main page_size [] = ok []
  leaf_rows main page_size (cell ∷ cells) =
      also (cell_row cell.row_id main cell page_size) (leaf_rows main page_size cells)

  abbrev pub page_rows :
      (ℕ → Result (List TableRow)) → View → ℕ → View → BTreeHeader → Result (List TableRow)
  page_rows scan main page_size page header =
      if (header.page_type == index_interior) || (header.page_type == index_leaf)
      then ok []
      else if header.page_type == table_interior
      then and_then (read_btree_cells page)
          (λ read. interior_rows scan read.0 header.right_most_pointer)
      else if header.page_type == table_leaf
      then and_then (read_btree_cells page) (λ read. leaf_rows main page_size read.0)
      else err (unknown_page_type header.page_type)

  -- `scanTablePage`, for a tree of at most so many levels: pages that point at each other are read until the
  -- stack of JavaScript ends.
  unfoldable pub scan_table_page : ℕ → View → ℤ → ℕ → Result (List TableRow)
  scan_table_page zero main page_number page_size = err out_of_fuel
  scan_table_page (suc levels) main page_number page_size =
      and_then (get_page_view page_number page_size main) (λ page.
        and_then (parse_btree_header page) (λ read.
          page_rows (λ n. scan_table_page levels main (pos n) page_size) main page_size read.1
            read.0))
