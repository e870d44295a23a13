-- ===== src/Sqlite/Table/Cells.antt =====
-- From the cell of a leaf page to the row of the table, utils/sqlite/table.ts.
use hydrui.Base.{
  ℕ, suc, ◌+◌, ◌^◌, ◌<◌, ◌≤◌, ◌≡◌, refl, ap, subst, ◌∙◌, List, [], ◌∷◌, ◌++◌, length, arith, Text,
  length-append,
}
use hydrui.Sqlite.View.{View, ok, pos}
use hydrui.Sqlite.View.Varint.{Holds, moved, marked, digits}
use hydrui.Sqlite.Record.{ColumnValue}
use hydrui.Sqlite.Record.Rows.{Row, parse_record-Row}
use hydrui.Sqlite.Tree.{BTreeCell, parse_table_leaf_cell, read_cell_payload}
use hydrui.Sqlite.Tree.Leaf.{
  window_at, leaf_cell, parse_table_leaf_cell-fits, Holds-payload, payload-inside, Holds-window_at,
}
use hydrui.Sqlite.Table.{TableRow, cell_row, row_of, value_of}

module _ (decode : List ℕ → Text) where
  -- A cell of a leaf page with its record, by its offset: the sizes are varints of at most eight bytes.
  pub data LeafCell (page : View) : ℕ → TableRow → Type 0 where
    leaf_cell_at :
        {ts hs ds : List ℕ} {cs : List ColumnValue}
        → Row decode ts hs ds cs
        → (j n k r o : ℕ) → j < 8
        → n < 128 ^ suc j
        → n < 2 ^ 31
        → k < 8
        → r < 128 ^ suc k
        → r < 2 ^ 31
        → suc (length hs + length ds) ≡ n
        → length hs < 127
        → Holds page o (
            marked (digits (suc j) n [])
            ++ (marked (digits (suc k) r []) ++ (suc (length hs) ∷ (hs ++ ds))))
        → LeafCell page o (record { row_id = pos r; values = cs })

  unmoved :
      (o : ℕ) (page : View) (x : ℕ)
      → parse_table_leaf_cell o (moved page x) ≡ parse_table_leaf_cell o page
  unfolding parse_table_leaf_cell
  unmoved o page x = refl

  -- It is read, and gives its row.
  pub parse_table_leaf_cell-LeafCell :
      {o : ℕ} {row : TableRow} {page : View}
      → LeafCell page o row
      → page.byte_offset + page.byte_length ≤ length page.buffer
      → (x page_size : ℕ) (main : View)
      → (cell : BTreeCell) × (y : ℕ) × (parse_table_leaf_cell o (moved page x)
          ≡ ok (cell, moved page y))
        × (cell_row decode cell.row_id main cell page_size ≡ ok (row ∷ []))
  unfolding read_cell_payload
  parse_table_leaf_cell-LeafCell {page}
        (leaf_cell_at {hs} {ds} {cs} row j n k r o few_j bound_j small_j few_k bound_k small_k count
          short h)
        fits x page_size main =
      let payload = suc (length hs) ∷ (hs ++ ds) in
      let at = o + suc j + suc k in
      let window = window_at (moved page at) n in
      let size : length payload ≡ n = omega (arith, length-append hs ds) in
      let (_, there) = Holds-payload j n k r o payload page h in
      let inside = payload-inside payload page at there (omega arith) in
      let held =
        Holds-window_at payload (moved page at) n 0 (omega arith)
          (subst (λ i. Holds page i payload) (zero_behind at) there) in
      let read = parse_record-Row decode row window short (omega arith) held in
      (
        leaf_cell n r window,
        at + n,
        unmoved o page x
            ∙ parse_table_leaf_cell-fits j n k r o payload page few_j bound_j small_j few_k bound_k
                small_k size (omega arith) fits h,
        ap (λ x. row_of (pos r) (value_of x)) read,
      )
    where
      zero_behind : (n : ℕ) → n ≡ n + 0
      zero_behind n = omega arith
