-- ===== src/Sqlite/Tests.antt =====
-- Small databases for the theorems on the reader of utils/sqlite.
use hydrui.Base.{
  ◌⊎◌, ◌≤◌, ◌↔◌, inl, inr, some, ◌+◌, ℕ, suc, ◌^◌, ◌<◌, ◌≡◌, refl, none, List, [], ◌∷◌, ◌++◌,
  length, replicate, arith, Text,
}
use hydrui.Sqlite.View.{err, range_error, byte_at, View, ok, pos, signed, read_varint}
use hydrui.Sqlite.View.Varint.{Holds, moved, marked, digits, read_varint-digits}
use hydrui.Sqlite.Record.{ColumnValue, integer, text, null, parse_column_value}
use hydrui.Sqlite.Record.Columns.{
  number_from, IsReadable, readable_outside, six_bytes, one_byte, is_text, is_null,
  parse_column_value-Column,
}
use hydrui.Sqlite.Record.Rows.{Row, no_columns, column}
use hydrui.Sqlite.Tree.{header_offset, parse_table_leaf_cell}
use hydrui.Sqlite.Tree.Header.{IsHeader}
use hydrui.Sqlite.Tree.Leaf.{window_at}
use hydrui.Sqlite.Tree.Overflow.{FitsIn, local_cell, parse_table_leaf_cell-overflow}
use hydrui.Sqlite.Table.{TableRow, scan_table_page}
use hydrui.Sqlite.Table.Cells.{leaf_cell_at}
use hydrui.Sqlite.Table.Stored.{
  Stored, leaf_page, interior_page, no_rows, next_row, no_children, next_child,
}
use hydrui.Sqlite.Table.Scan.{scan_table_page-Stored}

-- A decoder of the characters below 128.
abbrev pub ascii : List ℕ → Text
ascii bytes = bytes

abbrev pub view_of : List ℕ → View
view_of bytes = record {
  buffer = bytes;
  byte_offset = 0;
  byte_length = length bytes;
  offset = 0;
  page_number = none;
}

three_hundred-Holds : Holds (view_of (130 ∷ 44 ∷ [])) 0 (marked (digits 2 300 []))
unfolding digits
three_hundred-Holds = (refl, (refl, tt))

read_varint-digits_example :
    (read_varint (view_of (130 ∷ 44 ∷ []))
      ≡ ok (signed (2 ^ 31) 300, moved (view_of (130 ∷ 44 ∷ [])) 2))
    × (300 < 2 ^ 31
        → read_varint (view_of (130 ∷ 44 ∷ [])) ≡ ok (pos 300, moved (view_of (130 ∷ 44 ∷ [])) 2))
read_varint-digits_example =
    read_varint-digits 1 300 (view_of (130 ∷ 44 ∷ [])) (omega arith) (omega arith)
      three_hundred-Holds

-- The integer -1 of six bytes, which is read as another one.
abbrev minus_one : List ℕ
minus_one = replicate 6 255

parse_column_value-Column_example :
    (x : ColumnValue) × (parse_column_value ascii (pos 5) (view_of minus_one)
      ≡ ok (x, moved (view_of minus_one) 6))
    × ((x ≡ integer (signed (2 ^ 47) (number_from 0 minus_one))) ↔ IsReadable 5 minus_one)
parse_column_value-Column_example =
    parse_column_value-Column ascii (six_bytes minus_one refl) (view_of minus_one) (omega arith)
      (refl, (refl, (refl, (refl, (refl, (refl, tt))))))

-- A row of an integer, a text and nothing.
abbrev row_bytes : List ℕ
row_bytes = 4 ∷ 1 ∷ 15 ∷ 0 ∷ 5 ∷ 104 ∷ []

abbrev pub row_values : List ColumnValue
row_values = integer (signed (2 ^ 7) 5) ∷ text (104 ∷ []) ∷ null ∷ []

pub example-Row : Row ascii (1 ∷ 15 ∷ 0 ∷ []) (1 ∷ 15 ∷ 0 ∷ []) (5 ∷ 104 ∷ []) row_values
unfolding digits
example-Row =
    column 0 (omega arith) (omega arith) (omega arith) (one_byte (5 ∷ []) refl)
      (readable_outside 1 (5 ∷ []) (inl (omega arith)))
      (column 0 (omega arith) (omega arith) (omega arith) (is_text 15 (104 ∷ []) refl)
        (readable_outside 15 (104 ∷ []) (inr (omega arith)))
        (column 0 (omega arith) (omega arith) (omega arith) is_null
          (readable_outside 0 [] (inl (omega arith))) no_columns))

-- The cell of that row with the id 7.
abbrev pub cell_bytes : List ℕ
cell_bytes = 6 ∷ 7 ∷ row_bytes

-- A leaf of one row, and an interior page with that leaf on both sides of the key 7.
abbrev pub leaf_bytes : List ℕ
leaf_bytes =
    (13 ∷ 0 ∷ 0 ∷ 0 ∷ 1 ∷ 0 ∷ 16 ∷ 0 ∷ []) ++ (0 ∷ 16 ∷ 0 ∷ 0 ∷ 0 ∷ 0 ∷ 0 ∷ 0 ∷ []) ++ cell_bytes

abbrev interior_bytes : List ℕ
interior_bytes =
    (5 ∷ 0 ∷ 0 ∷ 0 ∷ 1 ∷ 0 ∷ 14 ∷ 0 ∷ [])
    ++ (0 ∷ 0 ∷ 0 ∷ 2 ∷ [])
    ++ (0 ∷ 14 ∷ [])
    ++ (0 ∷ 0 ∷ 0 ∷ 2 ∷ 7 ∷ 0 ∷ 0 ∷ 0 ∷ 0 ∷ 0 ∷ [])

abbrev three_pages : View
three_pages = view_of (replicate 24 0 ++ leaf_bytes ++ interior_bytes)

abbrev pub row_seven : TableRow
row_seven = record { row_id = pos 7; values = row_values }

-- The header of a page with one cell.
abbrev pub one_cell :
    {page : View} {page_type : ℕ} (area : ℕ)
    → byte_at page (0 + header_offset page) ≡ some page_type
    → Holds page (1 + header_offset page) (0 ∷ 0 ∷ [])
    → Holds page (3 + header_offset page) (0 ∷ 1 ∷ [])
    → Holds page (5 + header_offset page) (0 ∷ area ∷ [])
    → byte_at page (7 + header_offset page) ≡ some 0
    → IsHeader page page_type 1
one_cell area type_at free_at count_at area_at fragmented_at = record {
  free_high = 0;
  free_low = 0;
  count_high = 0;
  count_low = 1;
  area_high = 0;
  area_low = area;
  fragmented = 0;
  counted = refl;
  type_at = type_at;
  free_at = free_at;
  count_at = count_at;
  area_at = area_at;
  fragmented_at = fragmented_at;
}

leaf-Stored : (levels : ℕ) → Stored ascii three_pages 24 (suc levels) 1 (row_seven ∷ [])
unfolding digits
leaf-Stored levels =
    leaf_page (omega arith)
      (one_cell 16 refl (refl, (refl, tt)) (refl, (refl, tt)) (refl, (refl, tt)) refl)
      (next_row 0 16 (refl, (refl, tt))
        (leaf_cell_at example-Row 0 6 0 7 16 (omega arith) (omega arith) (omega arith) (omega arith)
          (omega arith) (omega arith) refl (omega arith)
          (refl, (refl, (refl, (refl, (refl, (refl, (refl, (refl, tt)))))))))
        no_rows)

interior-Stored : Stored ascii three_pages 24 2 2 (row_seven ∷ row_seven ∷ [])
unfolding digits
interior-Stored =
    interior_page (0 ∷ 0 ∷ 0 ∷ 2 ∷ []) (omega arith)
      (one_cell 14 refl (refl, (refl, tt)) (refl, (refl, tt)) (refl, (refl, tt)) refl) refl
      (refl, (refl, (refl, (refl, tt)))) refl
      (next_child 0 14 0 7 (0 ∷ 0 ∷ 0 ∷ 2 ∷ []) (refl, (refl, tt)) refl refl (omega arith)
        (omega arith) (omega arith) (refl, (refl, (refl, (refl, (refl, tt))))) (leaf-Stored 0)
        no_children)
      (leaf-Stored 0)

scan_table_page-Stored_example :
    scan_table_page ascii 2 three_pages (pos 3) 24 ≡ ok (row_seven ∷ row_seven ∷ [])
scan_table_page-Stored_example =
    scan_table_page-Stored ascii three_pages 24 2 2 (row_seven ∷ row_seven ∷ []) interior-Stored

-- A cell of 20 bytes, of which the page has two.
abbrev long_cell : View
long_cell = view_of (20 ∷ 9 ∷ 5 ∷ 104 ∷ [])

long_cell-Holds :
    Holds long_cell 0 (marked (digits 1 20 [])) × Holds long_cell 1 (marked (digits 1 9 []))
unfolding digits
long_cell-Holds = ((refl, tt), (refl, tt))

parse_table_leaf_cell-overflow_example :
    ((n : ℕ) × (pos 20 ≡ pos n)
      × (2 + n ≤ 4)
      × (parse_table_leaf_cell 0 long_cell
          ≡ ok (local_cell n (pos 9) (window_at (moved long_cell 2) n), moved long_cell (2 + n))))
    ⊎ ((¬ FitsIn (pos 20) 2 4) × (parse_table_leaf_cell 0 long_cell ≡ err range_error))
parse_table_leaf_cell-overflow_example =
    parse_table_leaf_cell-overflow 0 long_cell (moved long_cell 1) (moved long_cell 2) (pos 20)
      (pos 9) (omega arith)
      ((read_varint-digits 0 20 long_cell (omega arith) (omega arith) long_cell-Holds.0).1
        (omega arith))
      ((read_varint-digits 0 9 (moved long_cell 1) (omega arith) (omega arith) long_cell-Holds.1).1
        (omega arith))
