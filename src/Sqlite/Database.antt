-- ===== src/Sqlite/Database.antt =====
-- The schema tables of utils/sqlite/table.ts and the databases of parser.ts. What TextDecoder makes of bytes and
-- the whole number that a float is, if it is one, are parameters.
pub mod Schema
pub mod Parsed
use hydrui.Base.{
  ℕ, zero, suc, ◌+◌, Bool, true, false, Option, none, some, List, [], ◌∷◌, ◌++◌, length, not,
  if◌then◌else◌, ◌==◌, Text, codes, eq_text, Dict, insert, lookup, map,
}
use hydrui.Sqlite.View.{
  View, Result, and_then, ok, err, invalid, fractional_page, Reader, follow, ◌>>=◌, pure, throw, ℤ,
  pos, read_uint8, read_uint16, read_uint32, read_at, read_string, set_offset, ◌>>◌,
}
use hydrui.Sqlite.Record.{ColumnValue, null, integer, big_integer, float, blob, text}
use hydrui.Sqlite.Table.{TableRow, scan_table_page}

-- A number of JavaScript that is no BigInt; a float is its bit pattern.
pub data Number : Type 0 where
  whole : ℤ → Number
  real : ℕ → Number

pub record Table : Type 0 where
  pub name : Text
  pub root_page : Number
  pub rows : List TableRow

-- A text and a number of which `typeof` says so.
abbrev pub number_of : ColumnValue → Option Number
number_of null = none
number_of (integer i) = some (whole i)
number_of (big_integer i) = none
number_of (float bits) = some (real bits)
number_of (blob bytes) = none
number_of (text s) = none

abbrev pub string_of : ColumnValue → Option Text
string_of null = none
string_of (integer i) = none
string_of (big_integer i) = none
string_of (float bits) = none
string_of (blob bytes) = none
string_of (text s) = some s

abbrev pub is_table : Option Text → Bool
is_table none = false
is_table (some s) = eq_text s (codes "table")

abbrev pub both : Option Text → Option Number → Option (Text × Number)
both none n = none
both (some s) none = none
both (some s) (some n) = some (s, n)

-- The name and the root page of a table, by a row of the schema.
unfoldable pub schema_entry : List ColumnValue → Option (Text × Number)
schema_entry [] = none
schema_entry (a ∷ []) = none
schema_entry (a ∷ b ∷ []) = none
schema_entry (a ∷ b ∷ c ∷ []) = none
schema_entry (a ∷ b ∷ c ∷ d ∷ []) = none
schema_entry (a ∷ b ∷ c ∷ d ∷ e ∷ more) =
    if is_table (string_of a) then both (string_of b) (number_of d) else none

abbrev pub with_entry : Option (Text × Number) → Dict Number → Dict Number
with_entry none tables = tables
with_entry (some (name, rootpage)) tables = insert name rootpage tables

-- The loop of `findSchemaTables`.
unfoldable pub schema_from : Dict Number → List TableRow → Dict Number
unfolding schema_entry insert
schema_from tables [] = tables
schema_from tables (row ∷ rows) = schema_from (with_entry (schema_entry row.values) tables) rows

pub record SqliteHeader : Type 0 where
  pub magic_string : Text
  pub page_size : ℕ
  pub file_format_write_version : ℕ
  pub file_format_read_version : ℕ
  pub reserved_bytes : ℕ
  pub max_embed_payload_fraction : ℕ
  pub min_embed_payload_fraction : ℕ
  pub leaf_payload_fraction : ℕ
  pub file_change_counter : ℕ
  pub database_size_in_pages : ℕ
  pub first_freelist_trunk_page : ℕ
  pub freelist_pages : ℕ
  pub schema_cookie : ℕ
  pub schema_format_number : ℕ
  pub default_page_cache_size : ℕ
  pub largest_root_btree_page : ℕ
  pub database_text_encoding : ℕ
  pub user_version : ℕ
  pub incremental_vacuum : Bool
  pub application_id : ℕ
  pub version_valid_for_number : ℕ
  pub sqlite_version_number : ℕ

pub record SqliteDatabase : Type 0 where
  pub header : SqliteHeader
  pub tables : Dict Table
  pub pages : List (ℕ × List ℕ)

-- `SQLITE_HEADER_STRING`
abbrev pub sqlite_header_string : Text
sqlite_header_string = codes "SQLite format 3" ++ (0 ∷ [])

abbrev pub page_size_of : ℕ → ℕ
page_size_of n = if n == 1 then 65536 else n

-- `parseHeader` behind the signature.
unfoldable pub header_fields : Text → Reader SqliteHeader
header_fields magic_string = read_at 16 read_uint16 >>= λ page_size.
    read_at 18 read_uint8 >>= λ file_format_write_version.
    read_at 19 read_uint8 >>= λ file_format_read_version.
    read_at 20 read_uint8 >>= λ reserved_bytes.
    read_at 21 read_uint8 >>= λ max_embed_payload_fraction.
    read_at 22 read_uint8 >>= λ min_embed_payload_fraction.
    read_at 23 read_uint8 >>= λ leaf_payload_fraction.
    read_at 24 read_uint32 >>= λ file_change_counter.
    read_at 28 read_uint32 >>= λ database_size_in_pages.
    read_at 32 read_uint32 >>= λ first_freelist_trunk_page.
    read_at 36 read_uint32 >>= λ freelist_pages. read_at 40 read_uint32 >>= λ schema_cookie.
    read_at 44 read_uint32 >>= λ schema_format_number.
    read_at 48 read_uint32 >>= λ default_page_cache_size.
    read_at 52 read_uint32 >>= λ largest_root_btree_page.
    read_at 56 read_uint32 >>= λ database_text_encoding. read_at 60 read_uint32 >>= λ user_version.
    read_at 64 read_uint32 >>= λ incremental_vacuum. read_at 68 read_uint32 >>= λ application_id.
    read_at 92 read_uint32 >>= λ version_valid_for_number.
    read_at 96 read_uint32 >>= λ sqlite_version_number. pure (record {
      magic_string = magic_string;
      page_size = page_size_of page_size;
      file_format_write_version = file_format_write_version;
      file_format_read_version = file_format_read_version;
      reserved_bytes = reserved_bytes;
      max_embed_payload_fraction = max_embed_payload_fraction;
      min_embed_payload_fraction = min_embed_payload_fraction;
      leaf_payload_fraction = leaf_payload_fraction;
      file_change_counter = file_change_counter;
      database_size_in_pages = database_size_in_pages;
      first_freelist_trunk_page = first_freelist_trunk_page;
      freelist_pages = freelist_pages;
      schema_cookie = schema_cookie;
      schema_format_number = schema_format_number;
      default_page_cache_size = default_page_cache_size;
      largest_root_btree_page = largest_root_btree_page;
      database_text_encoding = database_text_encoding;
      user_version = user_version;
      incremental_vacuum = not (incremental_vacuum == 0);
      application_id = application_id;
      version_valid_for_number = version_valid_for_number;
      sqlite_version_number = sqlite_version_number;
    })

module _ (decode : List ℕ → Text) where
  -- `parseHeader`; no read of it moves the view.
  unfoldable pub parse_header : View → Result SqliteHeader
  unfolding header_fields
  parse_header v =
      let signature =
        follow (read_string decode (pos 16) (record v { offset = 0 })) (λ magic_string w.
          if eq_text magic_string sqlite_header_string
          then header_fields magic_string v
          else err (invalid (codes "Invalid SQLite database file - wrong header signature"))) in
      and_then signature (λ read. ok read.0)

  -- `findSchemaTables`, for a schema of at most so many levels.
  unfoldable pub find_schema_tables : ℕ → View → ℕ → Result (Dict Number)
  unfolding schema_from
  find_schema_tables levels main page_size =
      and_then (scan_table_page decode levels main (pos 1) page_size)
        (λ rows. ok (schema_from [] rows))

  module _ (whole_of : ℕ → Option ℤ) where
    abbrev pub rows_of : Option ℤ → ℕ → ℕ → View → ℕ → Result (List TableRow)
    rows_of none bits levels main page_size = err (fractional_page bits)
    rows_of (some n) bits levels main page_size = scan_table_page decode levels main n page_size

    abbrev pub root_rows : Number → ℕ → View → ℕ → Result (List TableRow)
    root_rows (whole n) levels main page_size = scan_table_page decode levels main n page_size
    root_rows (real bits) levels main page_size = rows_of (whole_of bits) bits levels main page_size

    -- `readTable`
    unfoldable pub read_table : ℕ → View → Number → ℕ → Text → Result Table
    read_table levels main root_page page_size name =
        and_then (root_rows root_page levels main page_size)
          (λ rows. ok (record { name = name; root_page = root_page; rows = rows }))

    -- The loop of `parse`.
    unfoldable pub tables_from : ℕ → View → ℕ → Dict Table → Dict Number → Result (Dict Table)
    unfolding read_table insert
    tables_from levels main page_size tables [] = ok tables
    tables_from levels main page_size tables ((name, root_page) ∷ entries) =
        and_then (read_table levels main root_page page_size name)
          (λ table. tables_from levels main page_size (insert name table tables) entries)

    -- `parse`
    unfoldable pub parse : ℕ → View → Result SqliteDatabase
    unfolding parse_header find_schema_tables tables_from
    parse levels main = and_then (parse_header main) (λ header.
        and_then (find_schema_tables levels main header.page_size) (λ entries.
          and_then (tables_from levels main header.page_size [] entries)
            (λ tables. ok (record { header = header; tables = tables; pages = [] }))))

-- `getTable`
unfoldable pub get_table : Text → SqliteDatabase → Option Table
unfolding lookup
get_table table_name database = lookup table_name database.tables

-- `getTableNames`
unfoldable pub get_table_names : SqliteDatabase → List Text
get_table_names database = map (λ entry. entry.0) database.tables
