-- ===== src/Sqlite/Tree.antt =====
-- The pages of utils/sqlite/btree.ts and the tables of table.ts.
pub mod Overflow
pub mod Leaf
pub mod Header
use hydrui.Base.{
  ℕ, zero, suc, ◌+◌, ◌-◌, ◌*◌, min, Bool, true, false, Option, none, some, List, [], ◌∷◌, ◌++◌,
  length, replicate, take, drop, ltb, leb, if◌then◌else◌, ◌==◌, ◌&&◌, ◌||◌, Text, codes, eq_text,
  Dict, insert, not,
}
use hydrui.Sqlite.View.{
  View, Result, ok, err, Failure, unknown_page_type, out_of_fuel, range_error, Reader, follow,
  ◌>>=◌, ◌>>◌, pure, throw, here, set_offset, ℤ, pos, negsuc, read_uint8, read_uint16, read_uint32,
  read_at, read_varint, read_window, read_buffer, get_page_view,
}
use hydrui.Sqlite.Record.{ColumnValue, integer, big_integer, float, blob, text, null, parse_record}

-- `PageType`, which other numbers are not.
abbrev pub index_interior : ℕ
index_interior = 2

abbrev pub table_interior : ℕ
table_interior = 5

abbrev pub index_leaf : ℕ
index_leaf = 10

abbrev pub table_leaf : ℕ
table_leaf = 13

pub record BTreeHeader : Type 0 where
  pub page_type : ℕ
  pub first_freeblock : ℕ
  pub cell_count : ℕ
  pub cell_content_area : ℕ
  pub fragmented_free_bytes : ℕ
  pub right_most_pointer : Option ℕ

-- A payload is a window: the source goes on to make a DataView of its buffer.
pub record BTreeCell : Type 0 where
  pub payload_size : ℤ
  pub row_id : Option ℤ
  pub left_child_page : Option ℕ
  pub payload : View
  pub overflow_page : Option ℕ

abbrev pub is_first : Option ℤ → Bool
is_first none = false
is_first (some (pos n)) = n == 1
is_first (some (negsuc n)) = false

-- The database header stands in front of the first page's.
abbrev pub header_offset : View → ℕ
header_offset v = if is_first v.page_number then 100 else 0

unfoldable pub parse_btree_header : Reader BTreeHeader
unfolding read_at read_uint8
parse_btree_header v =
    let base = header_offset v in
    follow (read_at (0 + base) read_uint8 v) (λ page_type.
      read_at (1 + base) read_uint16 >>= λ first_freeblock.
      read_at (3 + base) read_uint16 >>= λ cell_count.
      read_at (5 + base) read_uint16 >>= λ cell_content_area.
      read_at (7 + base) read_uint8 >>= λ fragmented_free_bytes. set_offset base >> λ w.
      let header : BTreeHeader = record {
        page_type = page_type;
        first_freeblock = first_freeblock;
        cell_count = cell_count;
        cell_content_area = cell_content_area;
        fragmented_free_bytes = fragmented_free_bytes;
        right_most_pointer = none;
      } in
      let interior =
        (set_offset (8 + base)
            >> (read_uint32 >>= λ right. pure (record header { right_most_pointer = some right })))
          w in
      if (page_type == table_interior) || (page_type == index_interior)
      then interior
      else ok (header, w))

unfoldable pub get_cell_offset : ℕ → Reader ℕ
unfolding read_at read_uint8
get_cell_offset i v =
    let base = header_offset v in
    follow (read_at (0 + base) read_uint8 v) (λ page_type.
      let header_size =
        (if (page_type == table_leaf) || (page_type == index_leaf) then 8 else 12) in
      read_at (header_size + i * 2 + base) read_uint16)

abbrev pub min_size : ℤ → ℕ → ℤ
min_size (pos m) n = pos (min m n)
min_size (negsuc m) n = negsuc m

abbrev pub lt_payload : ℤ → ℤ → Bool
lt_payload (pos m) (pos n) = ltb m n
lt_payload (pos m) (negsuc n) = false
lt_payload (negsuc m) (pos n) = true
lt_payload (negsuc m) (negsuc n) = ltb n m

-- `parseTableLeafCell` behind the payload.
unfoldable pub with_overflow : ℤ → ℤ → ℤ → View → Reader BTreeCell
with_overflow local_size payload_size row_id payload v =
    let cell : BTreeCell = record {
      payload_size = payload_size;
      row_id = some row_id;
      left_child_page = none;
      payload = payload;
      overflow_page = none;
    } in
    let overflows =
      follow (read_uint32 v) (λ page. pure (record cell { overflow_page = some page })) in
    if lt_payload local_size payload_size then overflows else ok (cell, v)

unfoldable pub parse_table_leaf_cell : ℕ → Reader BTreeCell
unfolding with_overflow
parse_table_leaf_cell cell_offset =
    set_offset cell_offset
    >> (read_varint >>= λ payload_size. read_varint >>= λ row_id. λ v.
        let header_size = v.offset - cell_offset in
        let local_size = min_size payload_size (v.byte_length - cell_offset - header_size) in
        follow (read_window local_size v)
          (λ payload. with_overflow local_size payload_size row_id payload))

abbrev pub no_payload : View
no_payload = record {
  buffer = [];
  byte_offset = 0;
  byte_length = 0;
  offset = 0;
  page_number = none;
}

unfoldable pub parse_table_interior_cell : ℕ → Reader BTreeCell
parse_table_interior_cell cell_offset =
    set_offset cell_offset
    >> (read_uint32 >>= λ left_child_page. read_varint >>= λ row_id. pure (record {
      payload_size = pos 0;
      row_id = some row_id;
      left_child_page = some left_child_page;
      payload = no_payload;
      overflow_page = none;
    }))

-- The cells from the index `i` on, of a page that is neither for a table: none.
unfoldable pub cells_from : ℕ → ℕ → ℕ → Reader (List BTreeCell)
unfolding get_cell_offset parse_table_leaf_cell parse_table_interior_cell
cells_from page_type zero i v = ok ([], v)
cells_from page_type (suc rounds) i v =
    let rest = λ (cells : List BTreeCell) (w : View).
      follow (cells_from page_type rounds (suc i) w) (λ more. pure (cells ++ more)) in
    follow (get_cell_offset i v) (λ cell_offset w.
      if page_type == table_leaf
      then follow (parse_table_leaf_cell cell_offset w) (λ cell. rest (cell ∷ []))
      else if page_type == table_interior
      then follow (parse_table_interior_cell cell_offset w) (λ cell. rest (cell ∷ []))
      else rest [] w)

unfoldable pub read_btree_cells : Reader (List BTreeCell)
unfolding parse_btree_header cells_from
read_btree_cells = parse_btree_header >>= λ header. cells_from header.page_type header.cell_count 0

-- `new Uint8Array(totalSize)` with what has been written to it so far.
abbrev pub window_of : List ℕ → ℕ → View
window_of bytes total = record {
  buffer = bytes ++ replicate (total - length bytes) 0;
  byte_offset = 0;
  byte_length = total;
  offset = 0;
  page_number = none;
}

-- The loop of `readCellPayload`. A page gives a byte at least, if it is larger than its pointer, so there are
-- no more rounds than bytes.
unfoldable pub overflow_from : ℕ → View → ℕ → ℕ → ℕ → List ℕ → Result (List ℕ)
unfolding get_page_view read_buffer
overflow_from zero main page_size total current bytes =
    if not (current == 0) && ltb (length bytes) total then err out_of_fuel else ok bytes
overflow_from (suc rounds) main page_size total current bytes =
    let more : Result (List ℕ) = elim (get_page_view (pos current) page_size main) [
      | err e ↦ err e
      | ok page ↦ elim (read_uint32 (record page { offset = header_offset main })) [
        | err e ↦ err e
        | ok (next, w) ↦
            elim (read_buffer (pos (min (total - length bytes) (page_size - w.offset))) w) [
              | err e ↦ err e
              | ok (data_bytes, x) ↦
                  overflow_from rounds main page_size total next (bytes ++ data_bytes)
            ]
      ]
    ] in
    if not (current == 0) && ltb (length bytes) total then more else ok bytes

abbrev pub payload_bytes : View → List ℕ
payload_bytes v = take v.byte_length (drop v.byte_offset v.buffer)

abbrev pub chained : Result (List ℕ) → ℕ → Result View
chained (ok bytes) total = ok (window_of bytes total)
chained (err e) total = err e

abbrev pub read_overflow : View → BTreeCell → ℕ → ℕ → ℤ → Result View
read_overflow main cell page_size page (negsuc n) = err range_error
read_overflow main cell page_size page (pos total) =
    if ltb total cell.payload.byte_length
    then err range_error
    else chained (overflow_from total main page_size total page (payload_bytes cell.payload)) total

abbrev pub payload_of : View → BTreeCell → ℕ → Option ℕ → Result View
payload_of main cell page_size none = ok cell.payload
payload_of main cell page_size (some zero) = ok cell.payload
payload_of main cell page_size (some (suc n)) =
    read_overflow main cell page_size (suc n) cell.payload_size

unfoldable pub read_cell_payload : View → BTreeCell → ℕ → Result View
unfolding overflow_from
read_cell_payload main cell page_size = payload_of main cell page_size cell.overflow_page
