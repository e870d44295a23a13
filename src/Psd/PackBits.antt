-- ===== src/Psd/PackBits.antt =====
-- PackBits of file/psd/packbits.ts. A typed array is the list of its bytes; `input.subarray` and the
-- reads at `inputIndex++` are what is left of the input. A read behind the end gives `undefined`,
-- which is stored as 0, and a write behind the end is dropped.
pub mod Decode
pub mod Packets
pub mod Rows
use hydrui.Base.{
  ℕ, zero, suc, ◌+◌, ◌-◌, ◌*◌, Option, none, some, List, [], ◌∷◌, length, take, drop, replicate,
  set, ltb, if◌then◌else◌,
}

abbrev pub Bytes : Type 0
Bytes = List ℕ

infixl 5 ◌>>=◌
abbrev ◌>>=◌ : {A B : Type 0} → Option A → (A → Option B) → Option B
none >>= f = none
some a >>= f = f a

-- `for (i < count) output[outputIndex++] = value`
unfoldable pub fill : ℕ → ℕ → ℕ → Bytes → Bytes
fill zero value o output = output
fill (suc count) value o output = fill count value (o + 1) (set output o value)

-- `for (i < count) output[outputIndex++] = input[inputIndex++]!`
unfoldable pub copy : ℕ → Bytes → ℕ → Bytes → Bytes
copy zero input o output = output
copy (suc count) [] o output = copy count [] (o + 1) (set output o 0)
copy (suc count) (byte ∷ input) o output = copy count input (o + 1) (set output o byte)

abbrev pub byte_or_zero : Bytes → ℕ
byte_or_zero [] = 0
byte_or_zero (byte ∷ _) = byte

-- The loop of `decompressRLE` over what is left of the input; `none` is a run out of fuel.
unfoldable pub decompress_loop : ℕ → ℕ → Bytes → ℕ → Bytes → Option Bytes
decompress_loop zero output_length input o output = none
decompress_loop (suc f) output_length [] o output = some output
decompress_loop (suc f) output_length (header ∷ input) o output =
    let repeated =
      decompress_loop f output_length (drop 1 input) (o + (257 - header))
        (fill (257 - header) (byte_or_zero input) o output) in
    let literal =
      decompress_loop f output_length (drop (header + 1) input) (o + (header + 1))
        (copy (header + 1) input o output) in
    let nothing = decompress_loop f output_length input o output in
    if ltb o output_length
    then if ltb 128 header then repeated else if ltb header 128 then literal else nothing
    else some output

-- `decompressRLE`: each round consumes a byte of the input, or is the last one.
unfoldable pub decompress_rle : Bytes → ℕ → Option Bytes
decompress_rle input output_length =
    decompress_loop (length input + 1) output_length input 0 (replicate output_length 0)

unfoldable pub write_from : Bytes → Bytes → ℕ → Bytes
write_from output [] offset = output
write_from output (byte ∷ row) offset = write_from (set output offset byte) row (offset + 1)

-- `output.set(row, offset)`, which throws a `RangeError`, here `none`, where the row does not fit.
unfoldable pub set_row : Bytes → Bytes → ℕ → Option Bytes
set_row output row offset =
    if ltb (length output) (offset + length row) then none else some (write_from output row offset)

-- The loop of `decompressRLERows` over the row lengths that are left.
unfoldable pub rows_loop : Bytes → ℕ → List ℕ → ℕ → ℕ → Bytes → Option Bytes
rows_loop input row_width [] input_offset output_offset output = some output
rows_loop input row_width (row_length ∷ row_lengths) input_offset output_offset output = do
  let row_data = take row_length (drop input_offset input)
  row ← decompress_rle row_data row_width
  output' ← set_row output row output_offset
  rows_loop input row_width row_lengths (input_offset + row_length) (output_offset + row_width)
      output'

unfoldable pub decompress_rle_rows : Bytes → List ℕ → ℕ → Option Bytes
decompress_rle_rows input row_lengths row_width =
    rows_loop input row_width row_lengths 0 0 (replicate (row_width * length row_lengths) 0)
