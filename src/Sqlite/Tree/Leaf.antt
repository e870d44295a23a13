-- ===== src/Sqlite/Tree/Leaf.antt =====
-- The cells of a leaf page, utils/sqlite/btree.ts, with the records in them.
use hydrui.Base.{
  ℕ, suc, ◌+◌, ◌-◌, ◌^◌, ◌<◌, ◌≤◌, min, ◌≡◌, refl, ap, subst, ◌∙◌, true, false, none, some, List,
  [], ◌∷◌, ◌++◌, length, arith, ltb, leb,
}
use hydrui.Sqlite.View.{View, ok, follow, ℤ, pos, byte_at, read_window, read_varint, Reader}
use hydrui.Sqlite.View.Varint.{
  Holds, moved, marked, digits, read_varint-digits, Holds-append_left, Holds-append_right,
  Holds-length,
}
use hydrui.Sqlite.Record.Rows.{length-type}
use hydrui.Sqlite.Tree.{BTreeCell, parse_table_leaf_cell, with_overflow, min_size}

abbrev pub window_at : View → ℕ → View
window_at v n = record {
  buffer = v.buffer;
  byte_offset = v.byte_offset + v.offset;
  byte_length = n;
  offset = 0;
  page_number = none;
}

-- What a view has behind its offset, its window has from its beginning.
pub Holds-window_at :
    (bs : List ℕ) (v : View) (n k : ℕ)
    → k + length bs ≤ n
    → Holds v (v.offset + k) bs
    → Holds (window_at v n) k bs
Holds-window_at [] v n k fits h = tt
Holds-window_at (b ∷ bs) v n k fits h = (
  at_k (leb_true fits) (same v.byte_offset v.offset k) h.0,
  Holds-window_at bs v n (k + 1) (omega arith) (subst (λ i. Holds v i bs) (shift v.offset k) h.1),
)
  where
    shift : (o k : ℕ) → o + k + 1 ≡ o + (k + 1)
    shift o k = omega arith

    same : (m o k : ℕ) → m + (o + k) ≡ m + o + k
    same m o k = omega arith

    leb_true : k + suc (length bs) ≤ n → ltb k n ≡ true
    leb_true h = ground arith

    at_k :
        ltb k n ≡ true
        → v.byte_offset + (v.offset + k) ≡ v.byte_offset + v.offset + k
        → byte_at v (v.offset + k) ≡ some b
        → byte_at (window_at v n) k ≡ some b
    at_k inside e h = ground arith

pub read_window-fits :
    (n : ℕ) (v : View)
    → v.byte_offset + v.offset + n ≤ length v.buffer
    → read_window (pos n) v ≡ ok (window_at v n, moved v (v.offset + n))
unfolding read_window
read_window-fits n v h =
    let inside : leb (v.byte_offset + v.offset + n) (length v.buffer) ≡ true = ground arith in
    rw inside refl

abbrev pub leaf_cell : ℕ → ℕ → View → BTreeCell
leaf_cell n r payload = record {
  payload_size = pos n;
  row_id = some (pos r);
  left_child_page = none;
  payload = payload;
  overflow_page = none;
}

-- The payload stands behind the two varints of its cell.
pub Holds-payload :
    (j n k r o : ℕ) (payload : List ℕ) (v : View)
    → Holds v o (marked (digits (suc j) n []) ++ (marked (digits (suc k) r []) ++ payload))
    → Holds v (o + suc j) (marked (digits (suc k) r []) ++ payload)
      × Holds v (o + suc j + suc k) payload
Holds-payload j n k r o payload v h =
    let first = marked (digits (suc j) n []) in
    let second = marked (digits (suc k) r []) in
    let behind =
      subst (λ i. Holds v i (second ++ payload)) (ap (λ w. o + w) (length-type j n))
        (Holds-append_right first (second ++ payload) v o h) in
    (
      behind,
      subst (λ i. Holds v i payload) (ap (λ w. o + suc j + w) (length-type k r))
          (Holds-append_right second payload v (o + suc j) behind),
    )

-- A payload that is there ends in the window.
pub payload-inside :
    (payload : List ℕ) (v : View) (at : ℕ)
    → Holds v at payload
    → 0 < length payload
    → at + length payload ≤ v.byte_length
payload-inside [] v at h some_byte = absurd (omega arith)
payload-inside (b ∷ bs) v at h some_byte = Holds-length b bs v at h

-- A cell whose payload lies in the page.
pub parse_table_leaf_cell-fits :
    (j n k r o : ℕ) (payload : List ℕ) (v : View)
    → j < 8
    → n < 128 ^ suc j
    → n < 2 ^ 31
    → k < 8
    → r < 128 ^ suc k
    → r < 2 ^ 31
    → length payload ≡ n
    → 0 < n
    → v.byte_offset + v.byte_length ≤ length v.buffer
    → Holds v o (marked (digits (suc j) n []) ++ (marked (digits (suc k) r []) ++ payload))
    → parse_table_leaf_cell o v
      ≡ ok (
        leaf_cell n r (window_at (moved v (o + suc j + suc k)) n),
        moved v (o + suc j + suc k + n),
      )
unfolding parse_table_leaf_cell with_overflow
parse_table_leaf_cell-fits j n k r o payload v few_j bound_j small_j few_k bound_k small_k count
      some_byte fits h =
    let first = marked (digits (suc j) n []) in
    let second = marked (digits (suc k) r []) in
    let (h₂, h₃) = Holds-payload j n k r o payload v h in
    let size =
      (read_varint-digits j n (moved v o) few_j bound_j
          (Holds-append_left first (second ++ payload) v o h)).1
        small_j in
    let id =
      (read_varint-digits k r (moved v (o + suc j)) few_k bound_k
          (Holds-append_left second payload v (o + suc j) h₂)).1
        small_k in
    let at = o + suc j + suc k in
    let inside : at + n ≤ v.byte_length =
      subst (λ m. at + m ≤ v.byte_length) count (payload-inside payload v at h₃ (omega arith)) in
    let whole : min n (v.byte_length - o - (at - o)) ≡ n = omega arith in
    let payload_read = read_window-fits n (moved v at) (omega arith) in
    let equal : ltb n n ≡ false = ground arith in
    ap (λ x. follow x (λ payload_size. read_id payload_size)) size
    ∙ ap (λ x. follow x (λ row_id. rest (pos n) row_id)) id
    ∙ ap (λ m. follow (read_window (pos m) (moved v at)) (with_overflow (pos m) (pos n) (pos r)))
        whole
    ∙ ap (λ x. follow x (with_overflow (pos n) (pos n) (pos r))) payload_read
    ∙ rw equal refl
  where
    rest : ℤ → ℤ → Reader BTreeCell
    rest payload_size row_id v =
        let local_size = min_size payload_size (v.byte_length - o - (v.offset - o)) in
        follow (read_window local_size v)
          (λ payload. with_overflow local_size payload_size row_id payload)

    read_id : ℤ → Reader BTreeCell
    read_id payload_size v = follow (read_varint v) (rest payload_size)
