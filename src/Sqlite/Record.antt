-- ===== src/Sqlite/Record.antt =====
-- The records of utils/sqlite/record.ts, and `ColumnValue` of structure.ts.
pub mod Columns
pub mod Rows
use hydrui.Base.{
  ℕ, zero, suc, ◌+◌, ◌-◌, ◌*◌, ◌/◌, ◌%◌, Bool, true, false, List, [], ◌∷◌, ltb, leb, if◌then◌else◌,
  ◌==◌, ◌&&◌, Text,
}
use hydrui.Sqlite.View.{
  View, Result, ok, err, Failure, unknown_serial_type, out_of_fuel, Reader, follow, ◌>>=◌, ◌>>◌,
  pure, throw, here, ℤ, pos, negsuc, read_varint, read_int8, read_int16, read_int24, read_int32,
  read_uint48, read_uint64, read_buffer, read_string,
}

-- An integer of eight bytes is a BigInt in the source, and a float is its bit pattern.
pub data ColumnValue : Type 0 where
  null : ColumnValue
  integer : ℤ → ColumnValue
  big_integer : ℤ → ColumnValue
  float : ℕ → ColumnValue
  blob : List ℕ → ColumnValue
  text : Text → ColumnValue

pub record RecordHeader : Type 0 where
  pub header_size : ℤ
  pub serial_types : List ℤ

abbrev pub lt_size : ℕ → ℤ → Bool
lt_size n (pos m) = ltb n m
lt_size n (negsuc m) = false

-- The loop of `parseRecordHeader`, which began at `start`.
unfoldable pub serial_types_from : ℕ → ℤ → ℕ → Reader (List ℤ)
serial_types_from zero header_size start v = err out_of_fuel
serial_types_from (suc rounds) header_size start v =
    let more =
      follow (read_varint v)
        (λ t w. follow (serial_types_from rounds header_size start w) (λ ts. pure (t ∷ ts))) in
    if lt_size (v.offset - start + 1) header_size then more else ok ([], v)

-- Each round reads a byte of the window, so there are no more of them than it has, and one.
unfoldable pub parse_record_header : Reader RecordHeader
unfolding serial_types_from
parse_record_header = read_varint >>= λ size. here >>= λ start. λ v.
    follow (serial_types_from (suc v.byte_length) size start v)
      (λ types. pure (record { header_size = size; serial_types = types }))

-- Where no integer or float has the type: a blob, a text or an error.
unfoldable pub parse_variable : (List ℕ → Text) → ℤ → Reader ColumnValue
parse_variable decode (negsuc n) = throw (unknown_serial_type (negsuc n))
parse_variable decode (pos n) =
    if leb 12 n && (n % 2 == 0)
    then (read_buffer (pos ((n - 12) / 2)) >>= λ bytes. pure (blob bytes))
    else if leb 13 n && (n % 2 == 1)
    then (read_string decode (pos ((n - 13) / 2)) >>= λ s. pure (text s))
    else throw (unknown_serial_type (pos n))

unfoldable pub parse_column_value : (List ℕ → Text) → ℤ → Reader ColumnValue
parse_column_value decode (negsuc n) = parse_variable decode (negsuc n)
parse_column_value decode (pos n) =
    if n == 0
    then pure null
    else if n == 8
    then pure (integer (pos 0))
    else if n == 9
    then pure (integer (pos 1))
    else if n == 1
    then (read_int8 >>= λ i. pure (integer i))
    else if n == 2
    then (read_int16 >>= λ i. pure (integer i))
    else if n == 3
    then (read_int24 >>= λ i. pure (integer i))
    else if n == 4
    then (read_int32 >>= λ i. pure (integer i))
    else if n == 5
    then (read_uint48 >>= λ i. pure (integer (pos i)))
    else if n == 6
    then (read_uint64 >>= λ i. pure (big_integer (pos i)))
    else if n == 7
    then (read_uint64 >>= λ i. pure (float i))
    else parse_variable decode (pos n)

unfoldable pub parse_record_data : (List ℕ → Text) → List ℤ → Reader (List ColumnValue)
unfolding parse_column_value
parse_record_data decode [] v = ok ([], v)
parse_record_data decode (t ∷ ts) v =
    follow (parse_column_value decode t v)
      (λ value w. follow (parse_record_data decode ts w) (λ values. pure (value ∷ values)))

unfoldable pub parse_record : (List ℕ → Text) → Reader (List ColumnValue)
unfolding parse_record_header parse_record_data
parse_record decode = parse_record_header >>= λ header. parse_record_data decode header.serial_types
