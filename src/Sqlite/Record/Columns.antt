-- ===== src/Sqlite/Record/Columns.antt =====
-- `parseColumnValue` of utils/sqlite/record.ts on each format of a column.
use hydrui.Base.{
  ◌↔◌, ◌⊎◌, inl, inr, Bool-cases, ℕ, suc, ◌+◌, ◌-◌, ◌*◌, ◌/◌, ◌%◌, ◌^◌, ◌<◌, ◌≤◌, ◌≡◌, refl, ap,
  subst, ◌∙◌, Bool, true, false, none, some, List, [], ◌∷◌, length, take, drop, arith, ltb, leb,
  if◌then◌else◌, All, ◌==◌, Text, ◌&&◌, Option, take-drop-cons,
}
use hydrui.Sqlite.View.{
  ℤ, View, Result, ok, follow, pos, signed, read_uint, read_int8, read_int16, read_int24,
  read_int32, read_uint48, read_uint64, read_buffer, read_string, pure, ◌>>=◌,
}
use hydrui.Sqlite.View.Varint.{Holds, moved, read_uint8-Holds}
use hydrui.Sqlite.Record.{
  ColumnValue, null, integer, big_integer, float, blob, text, parse_column_value, parse_variable,
}

-- The number of some bytes, the highest first.
abbrev pub number_from : ℕ → List ℕ → ℕ
number_from n [] = n
number_from n (b ∷ bs) = number_from (n * 256 + b) bs

pub read_uint-Holds :
    (bs : List ℕ) (n : ℕ) (v : View)
    → Holds v v.offset bs
    → read_uint (length bs) n v ≡ ok (number_from n bs, moved v (v.offset + length bs))
unfolding read_uint
read_uint-Holds [] n v h = ap (λ i. ok (n, moved v i)) (omega arith)
read_uint-Holds (b ∷ bs) n v h =
    ap (λ r. follow r (λ b w. read_uint (length bs) (n * 256 + b) w)) (read_uint8-Holds v b h.0)
    ∙ read_uint-Holds bs (n * 256 + b) (moved v (v.offset + 1)) h.1
    ∙ ap (λ i. ok (number_from (n * 256 + b) bs, moved v i)) (omega arith)

-- The formats of a column: its serial type, its bytes and its value. Integers have a sign.
pub data Column (decode : List ℕ → Text) : ℕ → List ℕ → ColumnValue → Type 0 where
  is_null : Column decode 0 [] null
  is_zero : Column decode 8 [] (integer (pos 0))
  is_one : Column decode 9 [] (integer (pos 1))
  one_byte :
      (bs : List ℕ)
      → length bs ≡ 1
      → Column decode 1 bs (integer (signed (2 ^ 7) (number_from 0 bs)))
  two_bytes :
      (bs : List ℕ)
      → length bs ≡ 2
      → Column decode 2 bs (integer (signed (2 ^ 15) (number_from 0 bs)))
  three_bytes :
      (bs : List ℕ)
      → length bs ≡ 3
      → All (λ b. b < 256) bs
      → Column decode 3 bs (integer (signed (2 ^ 23) (number_from 0 bs)))
  four_bytes :
      (bs : List ℕ)
      → length bs ≡ 4
      → Column decode 4 bs (integer (signed (2 ^ 31) (number_from 0 bs)))
  six_bytes :
      (bs : List ℕ)
      → length bs ≡ 6
      → Column decode 5 bs (integer (signed (2 ^ 47) (number_from 0 bs)))
  eight_bytes :
      (bs : List ℕ)
      → length bs ≡ 8
      → Column decode 6 bs (big_integer (signed (2 ^ 63) (number_from 0 bs)))
  is_float : (bs : List ℕ) → length bs ≡ 8 → Column decode 7 bs (float (number_from 0 bs))
  is_blob : (t : ℕ) (bs : List ℕ) → t ≡ 12 + 2 * length bs → Column decode t bs (blob bs)
  is_text : (t : ℕ) (bs : List ℕ) → t ≡ 13 + 2 * length bs → Column decode t bs (text (decode bs))

read_uint-bytes :
    (k : ℕ) (bs : List ℕ) (v : View)
    → length bs ≡ k
    → Holds v v.offset bs
    → read_uint k 0 v ≡ ok (number_from 0 bs, moved v (v.offset + length bs))
read_uint-bytes k bs v e h =
    subst (λ n. read_uint n 0 v ≡ ok (number_from 0 bs, moved v (v.offset + length bs))) e
      (read_uint-Holds bs 0 v h)

Holds-buffer :
    (bs : List ℕ) (v : View) (i : ℕ)
    → Holds v i bs
    → take (length bs) (drop (v.byte_offset + i) v.buffer) ≡ bs
Holds-buffer [] v i h = refl
Holds-buffer (b ∷ bs) v i h =
    take-drop-cons (length bs) (v.byte_offset + i) v.buffer (in_window (ltb i v.byte_length) h.0)
    ∙ ap (λ k. b ∷ take (length bs) (drop k v.buffer)) (shift v.byte_offset i)
    ∙ ap (b ∷◌) (Holds-buffer bs v (i + 1) h.1)
  where
    in_window : {o : Option ℕ} (c : Bool) → (if c then o else none) ≡ some b → o ≡ some b
    in_window c e = ground arith

    shift : (m i : ℕ) → suc (m + i) ≡ m + (i + 1)
    shift m i = omega arith

pub read_buffer-Holds :
    (bs : List ℕ) (v : View)
    → v.byte_offset + v.offset + length bs ≤ length v.buffer
    → Holds v v.offset bs
    → read_buffer (pos (length bs)) v ≡ ok (bs, moved v (v.offset + length bs))
unfolding read_buffer
read_buffer-Holds bs v fits h =
    let inside : leb (v.byte_offset + v.offset + length bs) (length v.buffer) ≡ true =
      ground arith in
    rw (inside, Holds-buffer bs v v.offset h) refl

number_from-three :
    (bs : List ℕ) → length bs ≡ 3 → All (λ b. b < 256) bs → number_from 0 bs < 2 ^ 24
number_from-three (a ∷ b ∷ c ∷ []) e h = omega arith
number_from-three [] e h = absurd (omega arith)
number_from-three (a ∷ []) e h = absurd (omega arith)
number_from-three (a ∷ b ∷ []) e h = absurd (omega arith)
number_from-three (a ∷ b ∷ c ∷ d ∷ bs) e h = absurd (omega arith)

signed-three :
    (n : ℕ)
    → n < 2 ^ 24
    → signed (2 ^ 31) (if ltb n 0x800000 then n else n + 0xff000000) ≡ signed (2 ^ 23) n
unfolding signed
signed-three n h = ground arith

read_uint48-Holds :
    (bs : List ℕ) (v : View)
    → length bs ≡ 6
    → Holds v v.offset bs
    → read_uint48 v ≡ ok (number_from 0 bs, moved v (v.offset + length bs))
unfolding read_uint48
read_uint48-Holds (a ∷ b ∷ c ∷ d ∷ e ∷ f ∷ []) v six h =
    let high =
      read_uint-Holds (a ∷ b ∷ c ∷ d ∷ []) 0 v (h.0, (h.1.0, (h.1.1.0, (h.1.1.1.0, tt)))) in
    let low =
      read_uint-Holds (e ∷ f ∷ []) 0 (moved v (v.offset + 4))
        (subst (λ i. Holds v i (e ∷ f ∷ [])) four h.1.1.1.1) in
    ap (λ r. follow r (λ low. read_uint 2 0 >>= λ high. pure (high + low * 0x10000))) high
    ∙ ap (λ r. follow r (λ high. pure (high + number_from 0 (a ∷ b ∷ c ∷ d ∷ []) * 0x10000))) low
    ∙ cc (sum, after)
  where
    four : v.offset + 1 + 1 + 1 + 1 ≡ v.offset + 4
    four = omega arith

    after : v.offset + 4 + 2 ≡ v.offset + 6
    after = omega arith

    sum :
        number_from 0 (e ∷ f ∷ []) + number_from 0 (a ∷ b ∷ c ∷ d ∷ []) * 0x10000
        ≡ number_from 0 (a ∷ b ∷ c ∷ d ∷ e ∷ f ∷ [])
    sum = omega arith
read_uint48-Holds bs v six h = absurd (omega arith)

read_signed-Holds :
    (half k : ℕ) (bs : List ℕ) (v : View)
    → length bs ≡ k
    → Holds v v.offset bs
    → (read_uint k 0 >>= λ n. pure (signed half n)) v
      ≡ ok (signed half (number_from 0 bs), moved v (v.offset + length bs))
read_signed-Holds half k bs v e h =
    ap (λ r. follow r (λ n. pure (signed half n))) (read_uint-bytes k bs v e h)

-- A value that is read is the one of the column.
as_value :
    {A : Type 0} (f : A → ColumnValue) {r : Result (A × View)} {a : A} {w : View}
    → r ≡ ok (a, w)
    → follow r (λ x. pure (f x)) ≡ ok (f a, w)
as_value f e = ap (λ r. follow r (λ x. pure (f x))) e

-- An integer of six or eight bytes, if the column is one, is not negative.
abbrev pub IsReadable : ℕ → List ℕ → Type 0
IsReadable t bs = (t ≡ 5 → number_from 0 bs < 2 ^ 47) × (t ≡ 6 → number_from 0 bs < 2 ^ 63)

pub readable_outside : (t : ℕ) (bs : List ℕ) → (t < 5) ⊎ (6 < t) → IsReadable t bs
readable_outside t bs h = (λ five. absurd (omega arith), λ six. absurd (omega arith))

positive : (n half : ℕ) → n < half → pos n ≡ signed half n
unfolding signed
positive n half h = let small : ltb n half ≡ true = ground arith in rw small refl

unsigned : (n half : ℕ) → pos n ≡ signed half n → n < half
unfolding signed
unsigned n half same = elim (Bool-cases (ltb n half)) [
  | inl small ↦ ground arith
  | inr large ↦ cc (rw large at same)
]

integer_inj : {i j : ℤ} → integer i ≡ integer j → i ≡ j
integer_inj e = cc

big_integer_inj : {i j : ℤ} → big_integer i ≡ big_integer j → i ≡ j
big_integer_inj e = cc

module _ (decode : List ℕ → Text) where
  parse_column_value-variable :
      (t : ℕ) (v : View)
      → 12 ≤ t
      → parse_column_value decode (pos t) v ≡ parse_variable decode (pos t) v
  unfolding parse_column_value
  parse_column_value-variable t v h =
      rw
        (
          other 0 (omega arith),
          other 8 (omega arith),
          other 9 (omega arith),
          other 1 (omega arith),
          other 2 (omega arith),
          other 3 (omega arith),
          other 4 (omega arith),
          other 5 (omega arith),
          other 6 (omega arith),
          other 7 (omega arith),
        )
        refl
    where
      other : (k : ℕ) → k < 12 → (t == k) ≡ false
      other k lt = ground arith

  parse_variable-blob :
      (t : ℕ) (bs : List ℕ) (v : View)
      → t ≡ 12 + 2 * length bs
      → v.byte_offset + v.offset + length bs ≤ length v.buffer
      → Holds v v.offset bs
      → parse_variable decode (pos t) v ≡ ok (blob bs, moved v (v.offset + length bs))
  unfolding parse_variable
  parse_variable-blob t bs v e fits h =
      let even : (leb 12 t && (t % 2 == 0)) ≡ true = ground arith in
      let count : (t - 12) / 2 ≡ length bs = omega arith in
      rw (even, count) (as_value blob (read_buffer-Holds bs v fits h))

  parse_variable-text :
      (t : ℕ) (bs : List ℕ) (v : View)
      → t ≡ 13 + 2 * length bs
      → v.byte_offset + v.offset + length bs ≤ length v.buffer
      → Holds v v.offset bs
      → parse_variable decode (pos t) v ≡ ok (text (decode bs), moved v (v.offset + length bs))
  unfolding parse_variable read_string
  parse_variable-text t bs v e fits h =
      let even : (leb 12 t && (t % 2 == 0)) ≡ false = ground arith in
      let odd : (leb 13 t && (t % 2 == 1)) ≡ true = ground arith in
      let count : (t - 13) / 2 ≡ length bs = omega arith in
      rw (even, odd, count)
        (as_value text (ap (λ r. follow r (λ x. pure (decode x))) (read_buffer-Holds bs v fits h)))

  right :
      (t : ℕ) (bs : List ℕ) (c : ColumnValue) (v : View)
      → (t < 5) ⊎ (6 < t)
      → parse_column_value decode (pos t) v ≡ ok (c, moved v (v.offset + length bs))
      → (x : ColumnValue) × (parse_column_value decode (pos t) v
          ≡ ok (x, moved v (v.offset + length bs)))
        × ((x ≡ c) ↔ IsReadable t bs)
  right t bs c v other read = (c, read, ((λ _. readable_outside t bs other), (λ _. refl)))

  -- A column is read, and the offset moves behind its bytes. The value that is read is the one that its serial type
  -- and its bytes stand for exactly if the column is no negative integer of six or eight bytes.
  pub parse_column_value-Column :
      {t : ℕ} {bs : List ℕ} {c : ColumnValue}
      → Column decode t bs c
      → (v : View) → v.byte_offset + v.offset + length bs ≤ length v.buffer
      → Holds v v.offset bs
      → (x : ColumnValue) × (parse_column_value decode (pos t) v
          ≡ ok (x, moved v (v.offset + length bs)))
        × ((x ≡ c) ↔ IsReadable t bs)
  unfolding parse_column_value read_int8 read_int16 read_int24 read_int32 read_uint64
  parse_column_value-Column is_null v fits h =
      right 0 [] null v (inl (omega arith)) (ap (λ i. ok (null, moved v i)) (omega arith))
  parse_column_value-Column is_zero v fits h =
      right 8 [] (integer (pos 0)) v (inr (omega arith))
        (ap (λ i. ok (integer (pos 0), moved v i)) (omega arith))
  parse_column_value-Column is_one v fits h =
      right 9 [] (integer (pos 1)) v (inr (omega arith))
        (ap (λ i. ok (integer (pos 1), moved v i)) (omega arith))
  parse_column_value-Column (one_byte bs e) v fits h =
      right 1 bs (integer (signed (2 ^ 7) (number_from 0 bs))) v (inl (omega arith))
        (as_value integer (read_signed-Holds (2 ^ 7) 1 bs v e h))
  parse_column_value-Column (two_bytes bs e) v fits h =
      right 2 bs (integer (signed (2 ^ 15) (number_from 0 bs))) v (inl (omega arith))
        (as_value integer (read_signed-Holds (2 ^ 15) 2 bs v e h))
  parse_column_value-Column (three_bytes bs e small) v fits h =
      right 3 bs (integer (signed (2 ^ 23) (number_from 0 bs))) v (inl (omega arith)) (
        as_value integer (
          ap
            (λ r.
              follow r (λ n. pure (signed (2 ^ 31) (if ltb n 0x800000 then n else n + 0xff000000))))
            (read_uint-bytes 3 bs v e h)
          ∙ ap (λ i. ok (i, moved v (v.offset + length bs)))
              (signed-three _ (number_from-three bs e small))))
  parse_column_value-Column (four_bytes bs e) v fits h =
      right 4 bs (integer (signed (2 ^ 31) (number_from 0 bs))) v (inl (omega arith))
        (as_value integer (read_signed-Holds (2 ^ 31) 4 bs v e h))
  parse_column_value-Column (six_bytes bs e) v fits h = (
    integer (pos (number_from 0 bs)),
    as_value (λ n. integer (pos n)) (read_uint48-Holds bs v e h),
    (
      (λ same. (
        (λ _. unsigned (number_from 0 bs) (2 ^ 47) (integer_inj same)),
        (λ six. absurd (omega arith)),
      )),
      (λ readable. ap integer (positive (number_from 0 bs) (2 ^ 47) (readable.0 refl))),
    ),
  )
  parse_column_value-Column (eight_bytes bs e) v fits h = (
    big_integer (pos (number_from 0 bs)),
    as_value (λ n. big_integer (pos n)) (read_uint-bytes 8 bs v e h),
    (
      (λ same. (
        (λ five. absurd (omega arith)),
        (λ _. unsigned (number_from 0 bs) (2 ^ 63) (big_integer_inj same)),
      )),
      (λ readable. ap big_integer (positive (number_from 0 bs) (2 ^ 63) (readable.1 refl))),
    ),
  )
  parse_column_value-Column (is_float bs e) v fits h =
      right 7 bs (float (number_from 0 bs)) v (inr (omega arith))
        (as_value float (read_uint-bytes 8 bs v e h))
  parse_column_value-Column (is_blob t bs e) v fits h =
      right t bs (blob bs) v (inr (omega arith))
        (parse_column_value-variable t v (omega arith) ∙ parse_variable-blob t bs v e fits h)
  parse_column_value-Column (is_text t bs e) v fits h =
      right t bs (text (decode bs)) v (inr (omega arith))
        (parse_column_value-variable t v (omega arith) ∙ parse_variable-text t bs v e fits h)

  pub parse_column_value-IsReadable :
      {t : ℕ} {bs : List ℕ} {c : ColumnValue}
      → Column decode t bs c
      → IsReadable t bs
      → (v : View) → v.byte_offset + v.offset + length bs ≤ length v.buffer
      → Holds v v.offset bs
      → parse_column_value decode (pos t) v ≡ ok (c, moved v (v.offset + length bs))
  parse_column_value-IsReadable {bs} col readable v fits h =
      let (x, read, same) = parse_column_value-Column col v fits h in
      read ∙ ap (λ y. ok (y, moved v (v.offset + length bs))) (same.1 readable)
