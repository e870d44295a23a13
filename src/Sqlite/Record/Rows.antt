-- ===== src/Sqlite/Record/Rows.antt =====
-- `parseRecord` of utils/sqlite/record.ts on the format of a record.
use hydrui.Base.{
  ℕ, zero, suc, ◌+◌, ◌-◌, ◌%◌, ◌^◌, ◌<◌, ◌≤◌, ◌≡◌, ap, subst, ◌∙◌, true, false, some, List, [], ◌∷◌,
  ◌++◌, map, length, arith, ltb, Text, length-append,
}
use hydrui.Sqlite.View.{View, ok, follow, ℤ, pos, byte_at, pure, Reader}
use hydrui.Sqlite.View.Varint.{
  Holds, moved, marked, digits, read_varint-digits, length-digits, Holds-append_left,
  Holds-append_right, length-marked, Holds-length,
}
use hydrui.Sqlite.Record.{
  ColumnValue, RecordHeader, serial_types_from, parse_record_header, parse_record_data,
  parse_record,
}
use hydrui.Sqlite.Record.Columns.{Column, IsReadable, parse_column_value-IsReadable}

-- A record by its serial types, the bytes of its header behind the size, the bytes of its columns and its
-- values: a type is written as a varint of one to eight bytes,
-- and integers of six and eight bytes are not negative.
pub data Row (decode : List ℕ → Text) : List ℕ → List ℕ → List ℕ → List ColumnValue → Type 0 where
  no_columns : Row decode [] [] [] []
  column :
      (k : ℕ) {t : ℕ} {bs : List ℕ} {c : ColumnValue} {ts hs ds : List ℕ} {cs : List ColumnValue}
      → k < 8
      → t < 128 ^ suc k
      → t < 2 ^ 31
      → Column decode t bs c
      → IsReadable t bs
      → Row decode ts hs ds cs
      → Row decode (t ∷ ts) (marked (digits (suc k) t []) ++ hs) (bs ++ ds) (c ∷ cs)

pub length-type : (k t : ℕ) → length (marked (digits (suc k) t [])) ≡ suc k
length-type k t =
    length-marked (digits (suc k) t []) ∙ length-digits (suc k) t [] ∙ add_zero (suc k)
  where
    add_zero : (n : ℕ) → n + 0 ≡ n
    add_zero n = omega arith

module _ (decode : List ℕ → Text) where
  length-types-le :
      {ts hs ds : List ℕ} {cs : List ColumnValue} → Row decode ts hs ds cs → length ts ≤ length hs
  length-types-le no_columns = omega arith
  length-types-le (column k {t} {hs} few bound small c readable row) =
      omega (
        arith,
        length-types-le row,
        length-append (marked (digits (suc k) t [])) hs,
        length-type k t,
      )

  serial_types_from-Row :
      {ts hs ds : List ℕ} {cs : List ColumnValue}
      → Row decode ts hs ds cs
      → (rounds size start : ℕ) (v : View) → length ts < rounds
      → v.offset - start + 1 + length hs ≡ size
      → start ≤ v.offset
      → Holds v v.offset hs
      → serial_types_from rounds (pos size) start v
        ≡ ok (map pos ts, moved v (v.offset + length hs))
  unfolding serial_types_from
  serial_types_from-Row no_columns zero size start v enough e begun h = absurd (omega arith)
  serial_types_from-Row no_columns (suc rounds) size start v enough e begun h =
      let ended : ltb (v.offset - start + 1) size ≡ false = ground arith in
      rw ended (ap (λ i. ok ([], moved v i)) (omega arith))
  serial_types_from-Row (column k few bound small c readable row) zero size start v enough e begun
        h =
      absurd (omega arith)
  serial_types_from-Row (column k {t} {ts} {hs} few bound small c readable row) (suc rounds) size
        start v enough e begun h =
      let bytes = marked (digits (suc k) t []) in
      let count = length-append bytes hs in
      let width = length-type k t in
      let goes_on : ltb (v.offset - start + 1) size ≡ true = more (omega arith) in
      let w = moved v (v.offset + suc k) in
      let read =
        (read_varint-digits k t v few bound (Holds-append_left bytes hs v v.offset h)).1 small in
      let rest =
        serial_types_from-Row row rounds size start w (omega arith) (omega arith) (omega arith) (
          subst (λ n. Holds v (v.offset + n) hs) width
            (Holds-append_right bytes hs v v.offset h)) in
      let after : v.offset + suc k + length hs ≡ v.offset + length (bytes ++ hs) = omega arith in
      rw goes_on (
        ap
          (λ r.
            follow r
              (λ t w. follow (serial_types_from rounds (pos size) start w) (λ ts. pure (t ∷ ts))))
          read
        ∙ ap (λ r. follow r (λ ts. pure (pos t ∷ ts))) rest
        ∙ ap (λ i. ok (pos t ∷ map pos ts, moved v i)) after)
    where
      more : {n m : ℕ} → n < m → ltb n m ≡ true
      more h = ground arith

  parse_record_data-Row :
      {ts hs ds : List ℕ} {cs : List ColumnValue}
      → Row decode ts hs ds cs
      → (v : View) → v.byte_offset + v.offset + length ds ≤ length v.buffer
      → Holds v v.offset ds
      → parse_record_data decode (map pos ts) v ≡ ok (cs, moved v (v.offset + length ds))
  unfolding parse_record_data
  parse_record_data-Row no_columns v fits h = ap (λ i. ok ([], moved v i)) (omega arith)
  parse_record_data-Row (column k {t} {bs} {c} {ts} {ds} {cs} few bound small col readable row) v
        fits h =
      let count = length-append bs ds in
      let value =
        parse_column_value-IsReadable decode col readable v (omega arith)
          (Holds-append_left bs ds v v.offset h) in
      let w = moved v (v.offset + length bs) in
      let rest =
        parse_record_data-Row row w (omega arith) (Holds-append_right bs ds v v.offset h) in
      let after : v.offset + length bs + length ds ≡ v.offset + length (bs ++ ds) = omega arith in
      ap
        (λ r. follow r (λ value w.
          follow (parse_record_data decode (map pos ts) w) (λ values. pure (value ∷ values))))
        value
      ∙ ap (λ r. follow r (λ values. pure (c ∷ values))) rest
      ∙ ap (λ i. ok (c ∷ cs, moved v i)) after

  -- A record whose size is written in one byte is read as the values of its columns, and the offset moves
  -- behind it.
  pub parse_record-Row :
      {ts hs ds : List ℕ} {cs : List ColumnValue}
      → Row decode ts hs ds cs
      → (v : View) → length hs < 127
      → v.byte_offset + v.offset + suc (length hs) + length ds ≤ length v.buffer
      → Holds v v.offset (suc (length hs) ∷ (hs ++ ds))
      → parse_record decode v ≡ ok (cs, moved v (v.offset + suc (length hs) + length ds))
  unfolding parse_record parse_record_header digits
  parse_record-Row {ts} {hs} {ds} {cs} row v small fits h =
      let size = suc (length hs) in
      let w = moved v (v.offset + 1) in
      let one_digit : size ≡ size % 128 = omega arith in
      let read =
        (read_varint-digits 0 size v (omega arith) (omega arith)
            (subst (λ n. byte_at v v.offset ≡ some n) one_digit h.0, tt)).1
          (omega arith) in
      let few : length hs < suc v.byte_length = window hs h in
      let types =
        serial_types_from-Row row (suc v.byte_length) size (v.offset + 1) w
          (omega (arith, length-types-le row)) (omega arith) (omega arith)
          (Holds-append_left hs ds v (v.offset + 1) h.1) in
      let x = moved v (v.offset + 1 + length hs) in
      let values =
        parse_record_data-Row row x (omega arith) (Holds-append_right hs ds v (v.offset + 1) h.1) in
      let after : v.offset + 1 + length hs + length ds ≡ v.offset + suc (length hs) + length ds =
        omega arith in
      ap
        (λ r. follow (follow r (header v)) (λ header. parse_record_data decode header.serial_types))
        read
      ∙ ap
          (λ r.
            follow (follow r (header_of (pos size)))
              (λ header. parse_record_data decode header.serial_types))
          types
      ∙ values
      ∙ ap (λ i. ok (cs, moved v i)) after
    where
      header_of : ℤ → List ℤ → Reader RecordHeader
      header_of size types = pure (record { header_size = size; serial_types = types })

      header : View → ℤ → Reader RecordHeader
      header v size w =
          follow (serial_types_from (suc w.byte_length) size w.offset w) (header_of size)

      window :
          (hs : List ℕ)
          → Holds v v.offset (suc (length hs) ∷ (hs ++ ds))
          → length hs < suc v.byte_length
      window hs h =
          omega (arith, Holds-length (suc (length hs)) (hs ++ ds) v v.offset h, length-append hs ds)
