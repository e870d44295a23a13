-- ===== src/Sqlite/Database/Schema.antt =====
-- `findSchemaTables` of utils/sqlite/table.ts: what the rows of the schema say of the tables.
use hydrui.Base.{
  codes, ◌&&◌, ◌≡◌, refl, ap, ◌∙◌, Bool, true, false, Option, none, some, List, [], ◌∷◌, Text,
  eq_text, Dict, lookup, lookup-insert, if◌then◌else◌,
}
use hydrui.Sqlite.Record.{ColumnValue, null, integer, big_integer, float, blob, text}
use hydrui.Sqlite.Table.{TableRow}
use hydrui.Sqlite.Database.{real, Number, whole, schema_entry, with_entry, schema_from}

abbrev pub or_else : {A : Type 0} → Option A → Option A → Option A
or_else none b = b
or_else (some a) b = some a

abbrev pub root_of : Text → Option (Text × Number) → Option Number
root_of name none = none
root_of name (some (key, root)) = if eq_text key name then some root else none

-- By the first, the second and the fourth column.
abbrev pub root_in : Text → ColumnValue → ColumnValue → ColumnValue → Option Number
root_in name (text t) (text k) (integer i) =
    if eq_text t (codes "table") && eq_text k name then some (whole i) else none
root_in name (text t) (text k) (float bits) =
    if eq_text t (codes "table") && eq_text k name then some (real bits) else none
root_in name a b d = none

-- The root of the table of a name, by a row of the schema: five columns at least, of which the first is the text
-- `table`, the second the name and the fourth a number.
abbrev pub table_root : Text → List ColumnValue → Option Number
table_root name (a ∷ b ∷ c ∷ d ∷ e ∷ more) = root_in name a b d
table_root name values = none

either : (name : Text) (b : Bool) → root_of name (if b then none else none) ≡ none
either name true = refl
either name false = refl

named :
    (name k : Text) (root : Number) (b : Bool)
    → root_of name (if b then some (k, root) else none)
      ≡ (if b && eq_text k name then some root else none)
named name k root true = refl
named name k root false = refl

schema_entry-table_root :
    (name : Text) (values : List ColumnValue)
    → root_of name (schema_entry values) ≡ table_root name values
unfolding schema_entry
schema_entry-table_root name [] = refl
schema_entry-table_root name (a ∷ []) = refl
schema_entry-table_root name (a ∷ b ∷ []) = refl
schema_entry-table_root name (a ∷ b ∷ c ∷ []) = refl
schema_entry-table_root name (a ∷ b ∷ c ∷ d ∷ []) = refl
schema_entry-table_root name (null ∷ b ∷ c ∷ d ∷ e ∷ more) = refl
schema_entry-table_root name (integer x ∷ b ∷ c ∷ d ∷ e ∷ more) = refl
schema_entry-table_root name (big_integer x ∷ b ∷ c ∷ d ∷ e ∷ more) = refl
schema_entry-table_root name (float x ∷ b ∷ c ∷ d ∷ e ∷ more) = refl
schema_entry-table_root name (blob x ∷ b ∷ c ∷ d ∷ e ∷ more) = refl
schema_entry-table_root name (text t ∷ null ∷ c ∷ d ∷ e ∷ more) =
    either name (eq_text t (codes "table"))
schema_entry-table_root name (text t ∷ integer x ∷ c ∷ d ∷ e ∷ more) =
    either name (eq_text t (codes "table"))
schema_entry-table_root name (text t ∷ big_integer x ∷ c ∷ d ∷ e ∷ more) =
    either name (eq_text t (codes "table"))
schema_entry-table_root name (text t ∷ float x ∷ c ∷ d ∷ e ∷ more) =
    either name (eq_text t (codes "table"))
schema_entry-table_root name (text t ∷ blob x ∷ c ∷ d ∷ e ∷ more) =
    either name (eq_text t (codes "table"))
schema_entry-table_root name (text t ∷ text k ∷ c ∷ null ∷ e ∷ more) =
    either name (eq_text t (codes "table"))
schema_entry-table_root name (text t ∷ text k ∷ c ∷ integer x ∷ e ∷ more) =
    named name k (whole x) (eq_text t (codes "table"))
schema_entry-table_root name (text t ∷ text k ∷ c ∷ big_integer x ∷ e ∷ more) =
    either name (eq_text t (codes "table"))
schema_entry-table_root name (text t ∷ text k ∷ c ∷ float x ∷ e ∷ more) =
    named name k (real x) (eq_text t (codes "table"))
schema_entry-table_root name (text t ∷ text k ∷ c ∷ blob x ∷ e ∷ more) =
    either name (eq_text t (codes "table"))
schema_entry-table_root name (text t ∷ text k ∷ c ∷ text x ∷ e ∷ more) =
    either name (eq_text t (codes "table"))

-- The root of a table: the last row of the schema with its name counts.
abbrev pub last_root : Text → List TableRow → Option Number
last_root name [] = none
last_root name (row ∷ rows) = or_else (last_root name rows) (table_root name row.values)

lookup-with_entry :
    (name : Text) (e : Option (Text × Number)) (d : Dict Number)
    → lookup name (with_entry e d) ≡ or_else (root_of name e) (lookup name d)
lookup-with_entry name none d = refl
lookup-with_entry name (some (key, root)) d =
    lookup-insert key name root d ∙ choose (eq_text key name)
  where
    choose :
        (c : Bool)
        → (if c then some root else lookup name d)
          ≡ or_else (if c then some root else none) (lookup name d)
    choose true = refl
    choose false = refl

or_else_assoc : {A : Type 0} (a b c : Option A) → or_else a (or_else b c) ≡ or_else (or_else a b) c
or_else_assoc none b c = refl
or_else_assoc (some a) b c = refl

pub lookup-schema_from :
    (name : Text) (rows : List TableRow) (d : Dict Number)
    → lookup name (schema_from d rows) ≡ or_else (last_root name rows) (lookup name d)
unfolding schema_from
lookup-schema_from name [] d = refl
lookup-schema_from name (row ∷ rows) d =
    lookup-schema_from name rows (with_entry (schema_entry row.values) d)
    ∙ ap (or_else (last_root name rows)) (lookup-with_entry name (schema_entry row.values) d)
    ∙ or_else_assoc (last_root name rows) (root_of name (schema_entry row.values)) (lookup name d)
    ∙ ap (λ root. or_else (or_else (last_root name rows) root) (lookup name d))
        (schema_entry-table_root name row.values)
