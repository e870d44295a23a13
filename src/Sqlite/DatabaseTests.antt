-- ===== src/Sqlite/DatabaseTests.antt =====
-- A database file of one table for the theorem on the parser of utils/sqlite.
use hydrui.Base.{
  ℕ, suc, ◌^◌, ◌≡◌, refl, true, false, Option, none, some, List, [], ◌∷◌, ◌++◌, replicate, arith,
  Text, codes, eq_text, ◌⊎◌, inl, inr, Bool-cases,
}
use hydrui.Sqlite.View.{
  View, ok, ℤ, pos, signed, read_at, read_uint, read_uint8, read_string, read_buffer,
}
use hydrui.Sqlite.View.Varint.{digits}
use hydrui.Sqlite.Record.{integer, text}
use hydrui.Sqlite.Record.Columns.{readable_outside, one_byte, is_text}
use hydrui.Sqlite.Record.Rows.{Row, no_columns, column}
use hydrui.Sqlite.Table.{TableRow}
use hydrui.Sqlite.Table.Cells.{leaf_cell_at}
use hydrui.Sqlite.Table.Stored.{Stored, leaf_page, no_rows, next_row}
use hydrui.Sqlite.Database.{
  Number, whole, SqliteHeader, SqliteDatabase, parse_header, header_fields, parse, get_table,
  schema_entry,
}
use hydrui.Sqlite.Database.Schema.{last_root}
use hydrui.Sqlite.Database.Parsed.{table_of, parse-Stored}
use hydrui.Sqlite.Tests.{one_cell, ascii, view_of, leaf_bytes, row_seven, example-Row}

-- The database header, of 100 bytes.
abbrev header_bytes : List ℕ
header_bytes =
    codes "SQLite format 3"
    ++ (0 ∷ 0 ∷ 160 ∷ 1 ∷ 1 ∷ 0 ∷ 64 ∷ 32 ∷ 32 ∷ [])
    ++ (0 ∷ 0 ∷ 0 ∷ 1 ∷ 0 ∷ 0 ∷ 0 ∷ 2 ∷ [])
    ++ replicate 68 0

abbrev schema_bytes : List ℕ
schema_bytes =
    (13 ∷ 0 ∷ 0 ∷ 0 ∷ 1 ∷ 0 ∷ 120 ∷ 0 ∷ 0 ∷ 120 ∷ [])
    ++ replicate 10 0
    ++ (14 ∷ 1 ∷ 6 ∷ 23 ∷ 15 ∷ 15 ∷ 1 ∷ 13 ∷ [])
    ++ codes "tablett"
    ++ (2 ∷ [])
    ++ replicate 24 0

abbrev file : View
file = view_of (header_bytes ++ schema_bytes ++ leaf_bytes ++ replicate 136 0)

abbrev file_header : SqliteHeader
file_header = record {
  magic_string = codes "SQLite format 3" ++ (0 ∷ []);
  page_size = 160;
  file_format_write_version = 1;
  file_format_read_version = 1;
  reserved_bytes = 0;
  max_embed_payload_fraction = 64;
  min_embed_payload_fraction = 32;
  leaf_payload_fraction = 32;
  file_change_counter = 1;
  database_size_in_pages = 2;
  first_freelist_trunk_page = 0;
  freelist_pages = 0;
  schema_cookie = 0;
  schema_format_number = 0;
  default_page_cache_size = 0;
  largest_root_btree_page = 0;
  database_text_encoding = 0;
  user_version = 0;
  incremental_vacuum = false;
  application_id = 0;
  version_valid_for_number = 0;
  sqlite_version_number = 0;
}

file_header_read : parse_header ascii file ≡ ok file_header
unfolding parse_header header_fields read_string read_buffer read_at read_uint read_uint8 eq_text
file_header_read = refl

abbrev schema_row : TableRow
schema_row = record {
  row_id = pos 1;
  values =
      text (codes "table")
      ∷ text (codes "t")
      ∷ text (codes "t")
      ∷ integer (signed (2 ^ 7) 2)
      ∷ text []
      ∷ [];
}

schema-Row :
    Row ascii
      (23 ∷ 15 ∷ 15 ∷ 1 ∷ 13 ∷ [])
      (23 ∷ 15 ∷ 15 ∷ 1 ∷ 13 ∷ [])
      (codes "tablett" ++ (2 ∷ []))
      schema_row.values
unfolding digits
schema-Row =
    column 0 (omega arith) (omega arith) (omega arith) (is_text 23 (codes "table") refl)
      (readable_outside 23 (codes "table") (inr (omega arith)))
      (column 0 (omega arith) (omega arith) (omega arith) (is_text 15 (codes "t") refl)
        (readable_outside 15 (codes "t") (inr (omega arith)))
        (column 0 (omega arith) (omega arith) (omega arith) (is_text 15 (codes "t") refl)
          (readable_outside 15 (codes "t") (inr (omega arith)))
          (column 0 (omega arith) (omega arith) (omega arith) (one_byte (2 ∷ []) refl)
            (readable_outside 1 (2 ∷ []) (inl (omega arith)))
            (column 0 (omega arith) (omega arith) (omega arith) (is_text 13 [] refl)
              (readable_outside 13 [] (inr (omega arith))) no_columns))))

schema-Stored : Stored ascii file 160 1 0 (schema_row ∷ [])
unfolding digits
schema-Stored =
    leaf_page (omega arith)
      (one_cell 120 refl (refl, (refl, tt)) (refl, (refl, tt)) (refl, (refl, tt)) refl)
      (next_row 0 120 (refl, (refl, tt))
        (leaf_cell_at schema-Row 0 14 0 1 120 (omega arith) (omega arith) (omega arith)
          (omega arith) (omega arith) (omega arith) refl (omega arith)
          (
            refl,
            (
              refl,
              (
                refl,
                (
                  refl,
                  (
                    refl,
                    (
                      refl,
                      (
                        refl,
                        (refl, (refl, (refl, (refl, (refl, (refl, (refl, (refl, (refl, tt))))))))),
                      ),
                    ),
                  ),
                ),
              ),
            ),
          ))
        no_rows)

table-Stored : Stored ascii file 160 1 1 (row_seven ∷ [])
unfolding digits
table-Stored =
    leaf_page (omega arith)
      (one_cell 16 refl (refl, (refl, tt)) (refl, (refl, tt)) (refl, (refl, tt)) refl)
      (next_row 0 16 (refl, (refl, tt))
        (leaf_cell_at example-Row 0 6 0 7 16 (omega arith) (omega arith) (omega arith) (omega arith)
          (omega arith) (omega arith) refl (omega arith)
          (refl, (refl, (refl, (refl, (refl, (refl, (refl, (refl, tt)))))))))
        no_rows)

abbrev rows_at : Number → List TableRow
rows_at root = row_seven ∷ []

-- The second page is the root of the only table.
only_root :
    (name : Text) (root : Number)
    → last_root name (schema_row ∷ []) ≡ some root
    → (n : ℕ) × (root ≡ whole (pos (suc n))) × Stored ascii file 160 1 n (rows_at root)
unfolding schema_entry signed eq_text
only_root name root h = (1, is_second (Bool-cases (eq_text (codes "t") name)), table-Stored)
  where
    is_second :
        (eq_text (codes "t") name ≡ true) ⊎ (eq_text (codes "t") name ≡ false)
        → root ≡ whole (pos 2)
    is_second (inl same) = cc (rw same at h)
    is_second (inr other) = cc (rw other at h)

abbrev no_float : ℕ → Option ℤ
no_float bits = none

parse-Stored_example :
    (database : SqliteDatabase) × (parse ascii no_float 1 file ≡ ok database)
    × (database.header ≡ file_header)
    × ((name : Text)
        → get_table name database ≡ table_of rows_at name (last_root name (schema_row ∷ [])))
parse-Stored_example =
    parse-Stored ascii no_float 1 file file_header (schema_row ∷ []) rows_at file_header_read
      schema-Stored only_root
