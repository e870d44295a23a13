-- ===== src/Sqlite/Database/Parsed.antt =====
-- `SQLiteParser.parse` of utils/sqlite/parser.ts: the tables of a database by their names.
use hydrui.Base.{
  ℕ, suc, ◌≡◌, refl, sym, ap, subst, ◌∙◌, true, false, Option, none, some, List, [], ◌∷◌, arith,
  Text, eq_text, eq_text_iff, eq_text→eq, eq_text_refl, ◌⊎◌, Dict, lookup, insert, lookup-insert,
  if◌then◌else◌, Bool-cases, inl, inr,
}
use hydrui.Sqlite.View.{View, Result, and_then, ok, ℤ, pos}
use hydrui.Sqlite.Table.{TableRow}
use hydrui.Sqlite.Table.Stored.{Stored}
use hydrui.Sqlite.Table.Scan.{scan_table_page-Stored}
use hydrui.Sqlite.Database.Schema.{or_else, last_root, lookup-schema_from}
use hydrui.Sqlite.Database.{
  Number, whole, Table, schema_entry, with_entry, schema_from, SqliteHeader, SqliteDatabase,
  parse_header, find_schema_tables, root_rows, read_table, tables_from, parse, get_table,
}

-- No key is there twice.
abbrev pub Unique : {V : Type 0} → Dict V → Type 0
Unique [] = Unit
Unique ((key, v) ∷ d) = (lookup key d ≡ none) × Unique d

eq_text_swap : (s t : Text) → eq_text s t ≡ false → eq_text t s ≡ false
eq_text_swap s t h = ground (arith, eq_text_iff s t, eq_text_iff t s)

insert-Unique : (key : Text) (v : Number) (d : Dict Number) → Unique d → Unique (insert key v d)
unfolding insert lookup
insert-Unique key v [] u = (refl, tt)
insert-Unique key v ((j, w) ∷ d) u = elim (Bool-cases (eq_text j key)) [
  | inl e ↦ rw e u
  | inr e ↦
      rw e (lookup-insert key j v d ∙ rw (eq_text_swap j key e) u.0, insert-Unique key v d u.1)
]

with_entry-Unique :
    (e : Option (Text × Number)) (d : Dict Number) → Unique d → Unique (with_entry e d)
with_entry-Unique none d u = u
with_entry-Unique (some (key, root)) d u = insert-Unique key root d u

schema_from-Unique :
    (rows : List TableRow) (d : Dict Number) → Unique d → Unique (schema_from d rows)
unfolding schema_from
schema_from-Unique [] d u = u
schema_from-Unique (row ∷ rows) d u =
    schema_from-Unique rows (with_entry (schema_entry row.values) d)
      (with_entry-Unique (schema_entry row.values) d u)

-- A table by its name and its root, where the rows of each root are known.
abbrev pub table_of : (Number → List TableRow) → Text → Option Number → Option Table
table_of rows_at name none = none
table_of rows_at name (some root) =
    some (record { name = name; root_page = root; rows = rows_at root })

module _ (decode : List ℕ → Text) (whole_of : ℕ → Option ℤ) (levels : ℕ) (main : View) where
  module _ (page_size : ℕ) (rows_at : Number → List TableRow) where
    read_table-rows_at :
        (name : Text) (root : Number)
        → root_rows decode whole_of root levels main page_size ≡ ok (rows_at root)
        → read_table decode whole_of levels main root page_size name
          ≡ ok (record { name = name; root_page = root; rows = rows_at root })
    unfolding read_table
    read_table-rows_at name root h =
        ap (λ r. and_then r (λ rows. ok (record { name = name; root_page = root; rows = rows }))) h

    tables_from-lookup :
        (entries : Dict Number) (tables : Dict Table)
        → Unique entries
        → ((name : Text) (root : Number)
            → lookup name entries ≡ some root
            → root_rows decode whole_of root levels main page_size ≡ ok (rows_at root))
        → (all : Dict Table) × (tables_from decode whole_of levels main page_size tables entries
            ≡ ok all)
          × ((name : Text)
              → lookup name all
                ≡ or_else (table_of rows_at name (lookup name entries)) (lookup name tables))
    unfolding tables_from lookup
    tables_from-lookup [] tables u readable = (tables, refl, λ name. refl)
    tables_from-lookup ((key, root) ∷ entries) tables u readable =
        let table : Table = record { name = key; root_page = root; rows = rows_at root } in
        let (all, read, found) =
          tables_from-lookup entries (insert key table tables) u.1
            (λ name r e. readable name r (behind name r e (Bool-cases (eq_text key name)))) in
        (
          all,
          ap
                (λ r. and_then r (λ t.
                  tables_from decode whole_of levels main page_size (insert key t tables) entries))
                (read_table-rows_at key root (readable key root (rw (eq_text_refl key) refl)))
              ∙ read,
          λ name.
              found name
              ∙ ap (or_else (table_of rows_at name (lookup name entries)))
                  (lookup-insert key name table tables)
              ∙ merged name (Bool-cases (eq_text key name)),
        )
      where
        absent : (name : Text) → eq_text key name ≡ true → lookup name entries ≡ none
        absent name same = subst (λ k. lookup k entries ≡ none) (eq_text→eq key name same) u.0

        merged :
            (name : Text)
            → (eq_text key name ≡ true) ⊎ (eq_text key name ≡ false)
            → or_else
                (table_of rows_at name (lookup name entries))
                (if eq_text key name then table_of rows_at key (some root) else lookup name tables)
              ≡ or_else
                  (table_of rows_at name
                    (if eq_text key name then some root else lookup name entries))
                  (lookup name tables)
        merged name (inl same) =
            rw (same, absent name same)
              (ap (λ k. table_of rows_at k (some root)) (eq_text→eq key name same))
        merged name (inr other) = rw other refl

        behind :
            (name : Text) (r : Number)
            → lookup name entries ≡ some r
            → (eq_text key name ≡ true) ⊎ (eq_text key name ≡ false)
            → (if eq_text key name then some root else lookup name entries) ≡ some r
        behind name r e (inl same) = cc (absent name same, e)
        behind name r e (inr other) = rw other e

  -- A database whose header is read, whose schema is a tree of pages from the first page on, and each table of which
  -- has such a tree of its own, with at most so many levels, is parsed. The table of a name has the rows of the tree
  -- that the last row of the schema for a table of the name has as its root, and there is no other table. The trees
  -- are those of `Stored`: pages lie in the file and records in their pages, varints have at most eight bytes and are
  -- below 2^31, the size of a record's header is one byte, and integers of six and eight bytes are not negative.
  pub parse-Stored :
      (header : SqliteHeader) (schema : List TableRow) (rows_at : Number → List TableRow)
      → parse_header decode main ≡ ok header
      → Stored decode main header.page_size levels 0 schema
      → ((name : Text) (root : Number)
          → last_root name schema ≡ some root
          → (n : ℕ) × (root ≡ whole (pos (suc n)))
            × Stored decode main header.page_size levels n (rows_at root))
      → (database : SqliteDatabase) × (parse decode whole_of levels main ≡ ok database)
        × (database.header ≡ header)
        × ((name : Text) → get_table name database ≡ table_of rows_at name (last_root name schema))
  unfolding parse find_schema_tables lookup get_table
  parse-Stored header schema rows_at read stored roots =
      let entries = schema_from [] schema in
      let found : (name : Text) → lookup name entries ≡ last_root name schema =
        λ name. lookup-schema_from name schema [] ∙ or_else-none (last_root name schema) in
      let (all, read_all, shown) =
        tables_from-lookup header.page_size rows_at entries [] (schema_from-Unique schema [] tt)
          (λ name root e. rows_read root (roots name root (sym (found name) ∙ e))) in
      (
        record { header = header; tables = all; pages = [] },
        ap (λ r. and_then r behind_header) read
            ∙ ap
                (λ r.
                  and_then (and_then r (λ rows. ok (schema_from [] rows))) (behind_schema header))
                (scan_table_page-Stored decode main header.page_size levels 0 schema stored)
            ∙ ap
                (λ r.
                  and_then r
                    (λ tables. ok (record { header = header; tables = tables; pages = [] })))
                read_all,
        refl,
        λ name.
            shown name
            ∙ or_else-none (table_of rows_at name (lookup name entries))
            ∙ ap (table_of rows_at name) (found name),
      )
    where
      or_else-none : {A : Type 0} (a : Option A) → or_else a none ≡ a
      or_else-none none = refl
      or_else-none (some a) = refl

      rows_read :
          (root : Number)
          → (n : ℕ) × (root ≡ whole (pos (suc n)))
            × Stored decode main header.page_size levels n (rows_at root)
          → root_rows decode whole_of root levels main header.page_size ≡ ok (rows_at root)
      rows_read root (n, e, tree) =
          ap (λ r. root_rows decode whole_of r levels main header.page_size) e
          ∙ scan_table_page-Stored decode main header.page_size levels n (rows_at root) tree

      behind_schema : SqliteHeader → Dict Number → Result SqliteDatabase
      behind_schema header entries =
          and_then (tables_from decode whole_of levels main header.page_size [] entries)
            (λ tables. ok (record { header = header; tables = tables; pages = [] }))

      behind_header : SqliteHeader → Result SqliteDatabase
      behind_header header =
          and_then (find_schema_tables decode levels main header.page_size) (behind_schema header)
