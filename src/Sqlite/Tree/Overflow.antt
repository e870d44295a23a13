-- ===== src/Sqlite/Tree/Overflow.antt =====
-- `parseTableLeafCell` of utils/sqlite/btree.ts, and payloads that do not fit in the page.
use hydrui.Base.{
  ℕ, zero, suc, ◌+◌, ◌-◌, ◌*◌, ◌%◌, ◌^◌, ◌<◌, ◌≤◌, min, ◌≡◌, refl, ap, subst, ◌∙◌, true, false,
  Option, none, some, arith, length, ltb, leb, Bool-cases, ◌⊎◌, inl, inr,
}
use hydrui.Sqlite.View.{
  View, Result, ok, err, follow, range_error, ℤ, pos, negsuc, byte_at, byte_or, read_uint8,
  read_uint, read_uint32, varint_from, read_varint, read_window, Reader,
}
use hydrui.Sqlite.View.Varint.{moved}
use hydrui.Sqlite.Tree.Leaf.{window_at, read_window-fits}
use hydrui.Sqlite.Tree.{BTreeCell, parse_table_leaf_cell, with_overflow, min_size}

-- A reader that succeeds has moved on, and stands within the window.
pub record Within (v w : View) : Type 0 where
  pub same : w ≡ moved v w.offset
  pub further : v.offset ≤ w.offset
  pub inside : w.offset ≤ v.byte_length

follow-eq-ok :
    {A B : Type 0} (r : Result (A × View)) (f : A → Reader B) {b : B} {x : View}
    → follow r f ≡ ok (b, x)
    → (a : A) × (w : View) × (r ≡ ok (a, w)) × (f a w ≡ ok (b, x))
follow-eq-ok (ok (a, w)) f h = (a, w, refl, h)
follow-eq-ok (err e) f h = cc

read_uint8-Within : (v w : View) (b : ℕ) → read_uint8 v ≡ ok (b, w) → Within v w
unfolding read_uint8
read_uint8-Within v w b h = elim (Bool-cases (ltb v.offset v.byte_length)) [
  | inl e ↦ of_byte (byte_at v v.offset) h (ground arith)
  | inr e ↦ cc (rw e at h)
]
  where
    of_byte :
        (o : Option ℕ)
        → byte_or o v (v.offset + 1) ≡ ok (b, w)
        → v.offset < v.byte_length
        → Within v w
    of_byte none h lt = cc
    of_byte (some c) h lt =
        let moved_w : moved v (v.offset + 1) ≡ w = cc in
        subst (Within v) moved_w
          (record { same = refl; further = omega arith; inside = omega arith })

Within-trans : (u v w : View) → Within u v → Within v w → Within u w
Within-trans u v w g h = record {
  same = h.same ∙ ap (λ x. moved x w.offset) g.same;
  further = omega (arith, g.further, h.further);
  inside = subst (λ n. w.offset ≤ n) (ap (λ (x : View). x.byte_length) g.same) h.inside;
}

varint_from-Within :
    (rounds value : ℕ) (v w : View) (n : ℕ) → varint_from rounds value v ≡ ok (n, w) → Within v w
unfolding varint_from
varint_from-Within zero value v w n h =
    let (b, x, read, rest) = follow-eq-ok (read_uint8 v) _ h in
    let same : x ≡ w = cc in subst (Within v) same (read_uint8-Within v x b read)
varint_from-Within (suc rounds) value v w n h =
    let (b, x, read, rest) = follow-eq-ok (read_uint8 v) _ h in
    let step = read_uint8-Within v x b read in
    elim (Bool-cases (ltb b 0x80)) [
      | inl e ↦ let same : x ≡ w = cc (rw e at rest) in subst (Within v) same step
      | inr e ↦
          Within-trans v x w step
            (varint_from-Within rounds ((value * 128) % 2 ^ 32 + b % 128) x w n (rw e at rest))
    ]

read_varint-Within : (v w : View) (n : ℤ) → read_varint v ≡ ok (n, w) → Within v w
unfolding read_varint
read_varint-Within v w n h =
    let (m, x, read, rest) = follow-eq-ok (varint_from 8 0 v) _ h in
    let same : x ≡ w = cc in subst (Within v) same (varint_from-Within 8 0 v x m read)

read_uint32-end : (v : View) → v.byte_length ≤ v.offset → read_uint32 v ≡ err range_error
unfolding read_uint read_uint8
read_uint32-end v h =
    let outside : ltb v.offset v.byte_length ≡ false = ground arith in rw outside refl

-- Whether a payload of this size, from this offset on, ends in a window of this length.
abbrev pub FitsIn : ℤ → ℕ → ℕ → Type 0
FitsIn (pos n) offset byte_length = offset + n ≤ byte_length
FitsIn (negsuc n) offset byte_length = ⊥

abbrev pub local_cell : ℕ → ℤ → View → BTreeCell
local_cell n row_id payload = record {
  payload_size = pos n;
  row_id = some row_id;
  left_child_page = none;
  payload = payload;
  overflow_page = none;
}

-- Behind the two varints of a cell, as `parseTableLeafCell` goes on.
behind_ids : ℕ → ℤ → ℤ → Reader BTreeCell
behind_ids room payload_size row_id v =
    follow (read_window (min_size payload_size room) v)
      (λ payload. with_overflow (min_size payload_size room) payload_size row_id payload)

behind_ids-fits :
    (n at room : ℕ) (row_id : ℤ) (v : View)
    → v.byte_offset + v.byte_length ≤ length v.buffer
    → at + n ≤ v.byte_length
    → room ≡ v.byte_length - at
    → behind_ids room (pos n) row_id (moved v at)
      ≡ ok (local_cell n row_id (window_at (moved v at) n), moved v (at + n))
unfolding behind_ids with_overflow
behind_ids-fits n at room row_id v whole fits e =
    let least : min n room ≡ n = omega arith in
    let equal : ltb n n ≡ false = ground arith in
    ap (λ m. follow (read_window (pos m) (moved v at)) (with_overflow (pos m) (pos n) row_id)) least
    ∙ ap (λ r. follow r (with_overflow (pos n) (pos n) row_id))
        (read_window-fits n (moved v at) (omega arith))
    ∙ rw equal refl

behind_ids-cut :
    (n at room : ℕ) (row_id : ℤ) (v : View)
    → v.byte_offset + v.byte_length ≤ length v.buffer
    → at ≤ v.byte_length
    → v.byte_length < at + n
    → room ≡ v.byte_length - at
    → behind_ids room (pos n) row_id (moved v at) ≡ err range_error
unfolding behind_ids with_overflow
behind_ids-cut n at room row_id v whole inside cut e =
    let least : min n room ≡ room = omega arith in
    let less : ltb room n ≡ true = ground arith in
    ap (λ m. follow (read_window (pos m) (moved v at)) (with_overflow (pos m) (pos n) row_id)) least
    ∙ ap (λ r. follow r (with_overflow (pos room) (pos n) row_id))
        (read_window-fits room (moved v at) (omega arith))
    ∙ rw (less, read_uint32-end (moved v (at + room)) (omega arith)) refl

-- Where the two varints of a leaf cell can be read, `parseTableLeafCell` returns the cell with its whole payload,
-- which lies in the page, and no overflow page; or the payload does not fit between the varints and the end of the
-- page, and it throws a RangeError. The page lies in its buffer.
pub parse_table_leaf_cell-overflow :
    (o : ℕ) (v x y : View) (payload_size row_id : ℤ)
    → v.byte_offset + v.byte_length ≤ length v.buffer
    → read_varint (moved v o) ≡ ok (payload_size, x)
    → read_varint x ≡ ok (row_id, y)
    → ((n : ℕ) × (payload_size ≡ pos n)
        × (y.offset + n ≤ v.byte_length)
        × (parse_table_leaf_cell o v
            ≡ ok (local_cell n row_id (window_at (moved v y.offset) n), moved v (y.offset + n))))
      ⊎ ((¬ FitsIn payload_size y.offset v.byte_length)
          × (parse_table_leaf_cell o v ≡ err range_error))
unfolding parse_table_leaf_cell behind_ids read_window
parse_table_leaf_cell-overflow o v x y payload_size row_id whole read_size read_id =
    let to_x = read_varint-Within (moved v o) x payload_size read_size in
    let to_y = Within-trans (moved v o) x y to_x (read_varint-Within x y row_id read_id) in
    let at = y.offset in
    let room = v.byte_length - o - (at - o) in
    let begun : parse_table_leaf_cell o v ≡ behind_ids room payload_size row_id (moved v at) =
      ap (λ r. follow r read_row_id) read_size
      ∙ ap (λ r. follow r (read_payload payload_size)) read_id
      ∙ ap (read_payload payload_size row_id) to_y.same in
    split payload_size room (to_y.inside) (omega (arith, to_y.further)) begun
  where
    read_payload : ℤ → ℤ → Reader BTreeCell
    read_payload size id w = behind_ids (w.byte_length - o - (w.offset - o)) size id w

    read_row_id : ℤ → Reader BTreeCell
    read_row_id size w = follow (read_varint w) (read_payload size)

    split :
        (size : ℤ) (room : ℕ)
        → y.offset ≤ v.byte_length
        → room ≡ v.byte_length - y.offset
        → parse_table_leaf_cell o v ≡ behind_ids room size row_id (moved v y.offset)
        → ((n : ℕ) × (size ≡ pos n)
            × (y.offset + n ≤ v.byte_length)
            × (parse_table_leaf_cell o v
                ≡ ok
                    (local_cell n row_id (window_at (moved v y.offset) n), moved v (y.offset + n))))
          ⊎ ((¬ FitsIn size y.offset v.byte_length) × (parse_table_leaf_cell o v ≡ err range_error))
    split (negsuc n) room inside e begun = inr ((λ h. h), begun)
    split (pos n) room inside e begun = elim (Bool-cases (leb (y.offset + n) v.byte_length)) [
      | inl fits ↦
          let lies : y.offset + n ≤ v.byte_length = ground arith in
          inl (n, refl, lies, begun ∙ behind_ids-fits n y.offset room row_id v whole lies e)
      | inr cut ↦
          let longer : v.byte_length < y.offset + n = ground arith in
          inr (
            (λ lies. absurd (omega arith)),
            begun ∙ behind_ids-cut n y.offset room row_id v whole inside longer e,
          )
    ]
