-- ===== src/Sqlite/Table/Scan.antt =====
-- The scan of a table, utils/sqlite/table.ts, on the trees of pages of the file format.
use hydrui.Base.{
  ℕ, zero, suc, ◌+◌, ◌-◌, ◌*◌, ◌^◌, ◌<◌, ◌≤◌, ◌≡◌, refl, sym, ap, subst, ◌∙◌, none, some, List, [],
  ◌∷◌, ◌++◌, length, arith, Text, append_assoc, leb, true, Option,
}
use hydrui.Sqlite.View.{View, Result, and_then, ok, follow, pos, byte_at, read_uint, get_page_view}
use hydrui.Sqlite.View.Varint.{
  Holds, moved, marked, digits, read_varint-digits, Holds-append_left, Holds-append_right,
}
use hydrui.Sqlite.Record.Columns.{number_from, read_uint-Holds}
use hydrui.Sqlite.Tree.{
  BTreeCell, BTreeHeader, parse_btree_header, parse_table_interior_cell, cells_from,
  read_btree_cells, header_offset, table_leaf, table_interior, no_payload,
}
use hydrui.Sqlite.Tree.Header.{
  two, header_of, parse_btree_header-leaf, parse_btree_header-interior, get_cell_offset-leaf,
  get_cell_offset-interior,
}
use hydrui.Sqlite.Table.{TableRow, child_rows, interior_rows, leaf_rows, page_rows, scan_table_page}
use hydrui.Sqlite.Table.Cells.{parse_table_leaf_cell-LeafCell}
use hydrui.Sqlite.Table.Stored.{
  page_at, LeafCells, no_rows, next_row, Stored, leaf_page, interior_page, Children, no_children,
  next_child,
}

get_page_view-page_at :
    (main : View) (page_size n : ℕ)
    → main.byte_offset + suc n * page_size ≤ length main.buffer
    → get_page_view (pos (suc n)) page_size main ≡ ok (page_at main page_size n)
unfolding get_page_view
get_page_view-page_at main page_size n h =
    let far : leb page_size (main.byte_offset + suc n * page_size) ≡ true = ground arith in
    let from : main.byte_offset + suc n * page_size - page_size ≡ main.byte_offset + n * page_size =
      omega arith in
    let inside : leb (main.byte_offset + n * page_size + page_size) (length main.buffer) ≡ true =
      ground arith in
    rw (far, from, inside) refl

parse_table_interior_cell-left :
    (o k key : ℕ) (left : List ℕ) (page : View)
    → length left ≡ 4
    → k < 8
    → key < 128 ^ suc k
    → key < 2 ^ 31
    → Holds page o (left ++ marked (digits (suc k) key []))
    → (x : ℕ)
    → (cell : BTreeCell) × (y : ℕ) × (parse_table_interior_cell o (moved page x)
        ≡ ok (cell, moved page y))
      × (cell.left_child_page ≡ some (number_from 0 left))
unfolding parse_table_interior_cell
parse_table_interior_cell-left o k key left page four few bound small h x =
    let child =
      subst
        (λ c. read_uint c 0 (moved page o) ≡ ok (number_from 0 left, moved page (o + length left)))
        four
        (read_uint-Holds left 0 (moved page o)
          (Holds-append_left left (marked (digits (suc k) key [])) page o h)) in
    let id =
      (read_varint-digits k key (moved page (o + length left)) few bound
          (Holds-append_right left (marked (digits (suc k) key [])) page o h)).1
        small in
    (interior_cell (number_from 0 left) key, o + length left + suc k, rw (child, id) refl, refl)
  where
    interior_cell : ℕ → ℕ → BTreeCell
    interior_cell left key = record {
      payload_size = pos 0;
      row_id = some (pos key);
      left_child_page = some left;
      payload = no_payload;
      overflow_page = none;
    }

module _ (decode : List ℕ → Text) (main : View) (page_size : ℕ) where
  cells_from-LeafCells :
      {page : View} {i : ℕ} {rows : List TableRow}
      → LeafCells decode page i rows
      → byte_at page (0 + header_offset page) ≡ some table_leaf
      → page.byte_offset + page.byte_length ≤ length page.buffer
      → (x : ℕ)
      → (cells : List BTreeCell) × (y : ℕ) × (cells_from table_leaf (length rows) i (moved page x)
          ≡ ok (cells, moved page y))
        × (leaf_rows decode main page_size cells ≡ ok rows)
  unfolding cells_from leaf_rows
  cells_from-LeafCells no_rows type_at fits x = ([], x, refl, refl)
  cells_from-LeafCells {page} {i} (next_row a b pointer leaf more) type_at fits x =
      let at = get_cell_offset-leaf (moved page x) i a b type_at pointer in
      let (cell, y, read, row_eq) =
        parse_table_leaf_cell-LeafCell decode leaf fits x page_size main in
      let (cells, z, read_more, rows_eq) = cells_from-LeafCells more type_at fits y in
      (cell ∷ cells, z, rw (at, read, read_more) refl, rw (row_eq, rows_eq) refl)

  cells_from-Children :
      {levels i m : ℕ} {page : View} {rows : List TableRow}
      → Children decode main page_size levels page i m rows
      → byte_at page (0 + header_offset page) ≡ some table_interior
      → (scans : (n : ℕ) (rows : List TableRow)
          → Stored decode main page_size levels n rows
          → scan_table_page decode levels main (pos (suc n)) page_size ≡ ok rows)
      → (right : Option ℕ) (last_rows : List TableRow)
      → child_rows (λ n. scan_table_page decode levels main (pos n) page_size) right ≡ ok last_rows
      → (x : ℕ)
      → (cells : List BTreeCell) × (y : ℕ) × (cells_from table_interior m i (moved page x)
          ≡ ok (cells, moved page y))
        × (interior_rows (λ n. scan_table_page decode levels main (pos n) page_size) cells right
            ≡ ok (rows ++ last_rows))
  unfolding cells_from interior_rows
  cells_from-Children no_children type_at scans right last_rows last x = ([], x, refl, last)
  cells_from-Children {levels} {page}
        (next_child {i} {rows} {more} a b k key left pointer four child few bound small h stored
          children)
        type_at scans right last_rows last x =
      let at = get_cell_offset-interior (moved page x) i a b type_at pointer in
      let (cell, y, read, left_eq) =
        parse_table_interior_cell-left (two a b) k key left page four few bound small h x in
      let (cells, z, read_more, rows_eq) =
        cells_from-Children children type_at scans right last_rows last y in
      (
        cell ∷ cells,
        z,
        rw (at, read, read_more) refl,
        rw (left_eq, child, scans _ _ stored, rows_eq)
            (ap ok (sym (append_assoc rows more last_rows))),
      )

  read_btree_cells-of :
      (page : View) (header : BTreeHeader) (x : ℕ) {r : Result (List BTreeCell × View)}
      → parse_btree_header page ≡ ok (header, moved page x)
      → cells_from header.page_type header.cell_count 0 (moved page x) ≡ r
      → read_btree_cells page ≡ r
  unfolding read_btree_cells
  read_btree_cells-of page header x parsed cells =
      ap (λ r. follow r (λ header. cells_from header.page_type header.cell_count 0)) parsed ∙ cells

  -- A page that is there, has this header and these cells.
  scan_table_page-page :
      (levels n x : ℕ) (page : View) (header : BTreeHeader)
      → get_page_view (pos n) page_size main ≡ ok page
      → parse_btree_header page ≡ ok (header, moved page x)
      → scan_table_page decode (suc levels) main (pos n) page_size
        ≡ page_rows decode
            (λ n. scan_table_page decode levels main (pos n) page_size)
            main
            page_size
            (moved page x)
            header
  unfolding scan_table_page
  scan_table_page-page levels n x page header there parsed =
      ap (λ r. and_then r (λ page. and_then (parse_btree_header page) rows_in)) there
      ∙ ap (λ r. and_then r rows_in) parsed
    where
      rows_in : BTreeHeader × View → Result (List TableRow)
      rows_in read =
          page_rows decode (λ n. scan_table_page decode levels main (pos n) page_size) main
            page_size read.1 read.0

  -- The scan of a tree of leaf and interior table pages, with at least the levels that it has, returns its rows in the
  -- order of the tree. The pages lie in the file and each record in its page, with no overflow; varints have at most
  -- eight bytes and are below 2^31; the size of a record's header is one byte; integers of six and eight bytes are not
  -- negative.
  pub scan_table_page-Stored :
      (levels n : ℕ) (rows : List TableRow)
      → Stored decode main page_size levels n rows
      → scan_table_page decode levels main (pos (suc n)) page_size ≡ ok rows
  unfolding scan_table_page
  scan_table_page-Stored zero n rows stored = elim stored [ ]
  scan_table_page-Stored (suc levels) n rows (leaf_page fits h leaves) =
      let page = page_at main page_size n in
      let base = header_offset page in
      let (cells, y, read, rows_eq) = cells_from-LeafCells leaves h.type_at (omega arith) base in
      let again =
        read_btree_cells-of (moved page base) (header_of h none) base
          (parse_btree_header-leaf page (length rows) h base) read in
      scan_table_page-page levels (suc n) base page (header_of h none)
        (get_page_view-page_at main page_size n fits)
        (parse_btree_header-leaf page (length rows) h 0)
      ∙ rw again rows_eq
  scan_table_page-Stored (suc levels) n all
        (interior_page {m} {last} {rows} {last_rows} right fits h four right_at number children
          stored) =
      let page = page_at main page_size n in
      let behind = 8 + header_offset page + length right in
      let header = header_of h (some (number_from 0 right)) in
      let last_eq : child_rows (λ n. scan_table_page decode levels main (pos n) page_size)
            (some (number_from 0 right))
          ≡ ok last_rows =
        rw number (scan_table_page-Stored levels last last_rows stored) in
      let (cells, y, read, rows_eq) =
        cells_from-Children children h.type_at (scan_table_page-Stored levels)
          (some (number_from 0 right)) last_rows last_eq behind in
      let again =
        read_btree_cells-of (moved page behind) header behind
          (parse_btree_header-interior page m right h four right_at behind) read in
      scan_table_page-page levels (suc n) behind page header
        (get_page_view-page_at main page_size n fits)
        (parse_btree_header-interior page m right h four right_at 0)
      ∙ rw again rows_eq
