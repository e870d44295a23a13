-- ===== src/Sqlite/View.antt =====
-- SQLiteDataView of utils/sqlite/dataview.ts: a window on a buffer of bytes, and an offset in it.
--
-- A number that JavaScript computes with `<<` and `|` is a signed integer of 32 bits: it is computed as its bit
-- pattern, and `signed` reads the pattern. A float is its bit pattern. What TextDecoder makes of bytes is the
-- parameter `decode` of the readers of text.
pub mod Varint
use hydrui.Base.{
  ℕ, zero, suc, ◌+◌, ◌-◌, ◌*◌, ◌/◌, ◌%◌, ◌^◌, Bool, true, false, ◌&&◌, Option, none, some, List, [],
  ◌∷◌, ◌++◌, length, take, drop, get_elem?, ltb, leb, if◌then◌else◌, ◌==◌, Text,
}

-- `negsuc n` is -(n + 1).
pub data ℤ : Type 0 where
  pos : ℕ → ℤ
  negsuc : ℕ → ℤ

-- The integer of a bit pattern whose highest bit is worth `half`.
unfoldable pub signed : ℕ → ℕ → ℤ
signed half x = if ltb x half then pos x else negsuc (half + half - 1 - x)

pub record View : Type 0 where
  pub buffer : List ℕ
  pub byte_offset : ℕ
  pub byte_length : ℕ
  pub offset : ℕ
  pub page_number : Option ℤ

-- What a method throws: a RangeError of the language, or an error of the reader.
pub data Failure : Type 0 where
  range_error : Failure
  invalid : Text → Failure
  unknown_serial_type : ℤ → Failure
  unknown_page_type : ℕ → Failure
  -- No error of the source: a root page that is no whole number, which is not followed.
  fractional_page : ℕ → Failure
  -- No error of the source: the rounds that a loop of this model was given are used up.
  out_of_fuel : Failure

pub data Result {ℓ} (A : Type ℓ) : Type ℓ where
  ok : A → Result A
  err : Failure → Result A

-- A method that reads at the offset.
abbrev pub Reader : Type 0 → Type 0
Reader A = View → Result (A × View)

abbrev pub follow : {A B : Type 0} → Result (A × View) → (A → Reader B) → Result (B × View)
follow (ok (a, w)) f = f a w
follow (err e) f = err e

-- What a call that reads nothing itself goes on with.
abbrev pub and_then : {A B : Type 0} → Result A → (A → Result B) → Result B
and_then (ok a) f = f a
and_then (err e) f = err e

infixl 5 ◌>>=◌ ◌>>◌
abbrev pub ◌>>=◌ : {A B : Type 0} → Reader A → (A → Reader B) → Reader B
◌>>=◌ m f v = follow (m v) f

abbrev pub ◌>>◌ : {A B : Type 0} → Reader A → Reader B → Reader B
m >> k = m >>= λ _. k

abbrev pub pure : {A : Type 0} → A → Reader A
pure a v = ok (a, v)

abbrev pub throw : {A : Type 0} → Failure → Reader A
throw e v = err e

abbrev pub here : Reader ℕ
here v = ok (v.offset, v)

abbrev pub set_offset : ℕ → Reader (Unit {0})
set_offset offset v = ok (tt, record v { offset = offset })

-- `getUint8` of the window.
abbrev pub byte_at : View → ℕ → Option ℕ
byte_at v i = if ltb i v.byte_length then get_elem? v.buffer (v.byte_offset + i) else none

abbrev pub byte_or : Option ℕ → View → ℕ → Result (ℕ × View)
byte_or none v after = err range_error
byte_or (some b) v after = ok (b, record v { offset = after })

-- `readUint8()`
unfoldable pub read_uint8 : Reader ℕ
read_uint8 v = byte_or (byte_at v v.offset) v (v.offset + 1)

-- A big-endian number of as many bytes: `getUint16` and so on, with a RangeError before anything is read.
unfoldable pub read_uint : ℕ → ℕ → Reader ℕ
read_uint zero n v = ok (n, v)
read_uint (suc k) n v = follow (read_uint8 v) (λ b w. read_uint k (n * 256 + b) w)

-- A method with an offset argument leaves the offset of the view alone.
unfoldable pub read_at : ℕ → Reader ℕ → Reader ℕ
read_at i m v = follow (m (record v { offset = i })) (λ n w. ok (n, v))

abbrev pub read_uint16 : Reader ℕ
read_uint16 = read_uint 2 0

abbrev pub read_uint32 : Reader ℕ
read_uint32 = read_uint 4 0

unfoldable pub read_int8 : Reader ℤ
read_int8 = read_uint 1 0 >>= λ n. pure (signed (2 ^ 7) n)

unfoldable pub read_int16 : Reader ℤ
read_int16 = read_uint 2 0 >>= λ n. pure (signed (2 ^ 15) n)

-- `value |= 0xff000000` where the highest bit of the three bytes is set.
unfoldable pub read_int24 : Reader ℤ
read_int24 =
    read_uint 3 0 >>= λ n. pure (signed (2 ^ 31) (if ltb n 0x800000 then n else n + 0xff000000))

unfoldable pub read_int32 : Reader ℤ
read_int32 = read_uint 4 0 >>= λ n. pure (signed (2 ^ 31) n)

-- `high + low * 0x10000`
unfoldable pub read_uint48 : Reader ℕ
read_uint48 = read_uint 4 0 >>= λ low. read_uint 2 0 >>= λ high. pure (high + low * 0x10000)

unfoldable pub read_uint64 : Reader ℕ
read_uint64 = read_uint 8 0

-- A round of `readVarint` behind its byte; `again` is the rest of the loop.
unfoldable pub varint_round : (ℕ → Reader ℕ) → ℕ → ℕ → Reader ℕ
varint_round again value byte w =
    let next = (value * 128) % 2 ^ 32 + byte % 128 in
    let more = again next w in if ltb byte 0x80 then ok (next, w) else more

-- The rounds, and the ninth byte.
unfoldable pub varint_from : ℕ → ℕ → Reader ℕ
unfolding varint_round
varint_from zero value v = follow (read_uint8 v) (λ byte. pure ((value * 256) % 2 ^ 32 + byte))
varint_from (suc rounds) value v = follow (read_uint8 v) (varint_round (varint_from rounds) value)

unfoldable pub read_varint : Reader ℤ
read_varint = varint_from 8 0 >>= λ n. pure (signed (2 ^ 31) n)

-- `new Uint8Array(buffer, byteOffset + offset, length)`: it may reach behind the window, not behind the buffer.
unfoldable pub read_buffer : ℤ → Reader (List ℕ)
read_buffer (negsuc n) v = err range_error
read_buffer (pos n) v =
    let from = v.byte_offset + v.offset in
    if leb (from + n) (length v.buffer)
    then ok (take n (drop from v.buffer), record v { offset = v.offset + n })
    else err range_error

unfoldable pub read_string : (List ℕ → Text) → ℤ → Reader Text
read_string decode n = read_buffer n >>= λ bytes. pure (decode bytes)

-- Where the window of a page begins, unless it does so in front of the buffer.
abbrev pub page_start : ℤ → ℕ → ℕ → Option ℕ
page_start (pos n) page_size from =
    if leb page_size (from + n * page_size) then some (from + n * page_size - page_size) else none
page_start (negsuc n) page_size from =
    if leb ((n + 2) * page_size) from then some (from - (n + 2) * page_size) else none

abbrev pub page_window : Option ℕ → ℤ → ℕ → List ℕ → Result View
page_window none n page_size buffer = err range_error
page_window (some from) n page_size buffer =
    let window : View = record {
      buffer = buffer;
      byte_offset = from;
      byte_length = page_size;
      offset = 0;
      page_number = some n;
    } in
    if leb (from + page_size) (length buffer) then ok window else err range_error

-- `getPageView`
unfoldable pub get_page_view : ℤ → ℕ → View → Result View
get_page_view n page_size v =
    page_window (page_start n page_size v.byte_offset) n page_size v.buffer

-- What `readBuffer` returns as a window of its own, on the same buffer.
unfoldable pub read_window : ℤ → Reader View
read_window (negsuc n) v = err range_error
read_window (pos n) v =
    let from = v.byte_offset + v.offset in
    let window : View = record {
      buffer = v.buffer;
      byte_offset = from;
      byte_length = n;
      offset = 0;
      page_number = none;
    } in
    if leb (from + n) (length v.buffer)
    then ok (window, record v { offset = v.offset + n })
    else err range_error

unfoldable pub read_int64 : Reader ℤ
read_int64 = read_uint 8 0 >>= λ n. pure (signed (2 ^ 63) n)

unfoldable pub skip : ℕ → Reader (Unit {0})
skip bytes v = ok (tt, record v { offset = v.offset + bytes })

abbrev pub is_end : Option ℕ → Bool
is_end none = true
is_end (some b) = b == 0

-- How many bytes there are from an offset on before a zero or the end of the window.
unfoldable pub length_to_zero : ℕ → View → ℕ → ℕ
length_to_zero zero v i = 0
length_to_zero (suc rounds) v i =
    let more = suc (length_to_zero rounds v (i + 1)) in if is_end (byte_at v i) then 0 else more

unfoldable pub read_cstring : (List ℕ → Text) → Reader Text
unfolding length_to_zero
read_cstring decode v =
    let n = length_to_zero v.byte_length v v.offset in
    follow (read_string decode (pos n) v) (λ s w. ok (s, record v { offset = v.offset + n + 1 }))
