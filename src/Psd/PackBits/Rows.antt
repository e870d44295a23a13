-- ===== src/Psd/PackBits/Rows.antt =====
-- `decompressRLERows`: each row of the output is its row of the input, decompressed by itself.
use hydrui.Base.{
  ℕ, zero, suc, ◌+◌, ◌*◌, ◌≡◌, refl, ap, sym, false, some, List, [], ◌∷◌, ◌++◌, length, take, drop,
  replicate, set, length-append, length-replicate, append_assoc, arith, ltb,
}
use hydrui.Psd.PackBits.{Bytes, write_from, set_row, rows_loop, decompress_rle_rows}
use hydrui.Psd.PackBits.Decode.{pad, length-pad, expand, decompress_rle-expand}

-- The bytes of one row of the output.
pub row : Bytes → ℕ → Bytes
row input n = pad n (expand (length input + 1) input)

-- The rows, each from its part of the input.
abbrev pub rows : Bytes → ℕ → List ℕ → Bytes
rows input n [] = []
rows input n (row_length ∷ row_lengths) =
    row (take row_length input) n ++ rows (drop row_length input) n row_lengths

-- A write just behind `front` replaces the first byte of what follows.
set-append :
    (front behind : Bytes) (byte old : ℕ)
    → set (front ++ old ∷ behind) (length front) byte ≡ front ++ byte ∷ behind
set-append [] behind byte old = refl
set-append (x ∷ front) behind byte old = ap (x ∷◌) (set-append front behind byte old)

abbrev zeros : ℕ → Bytes
zeros n = replicate n 0

zeros-add : (m n : ℕ) → zeros (m + n) ≡ zeros m ++ zeros n
zeros-add zero n = ap zeros (omega arith)
zeros-add (suc m) n =
    let e : suc m + n ≡ suc (m + n) = omega arith in rw e (ap (0 ∷◌) (zeros-add m n))

write_from-append :
    (front row behind : Bytes)
    → write_from (front ++ (zeros (length row) ++ behind)) row (length front)
      ≡ front ++ (row ++ behind)
unfolding write_from
write_from-append front [] behind = refl
write_from-append front (byte ∷ row) behind =
    let next = write_from-append (front ++ byte ∷ []) row behind in
    rw (set-append front (zeros (length row) ++ behind) byte 0)
      (rw (length-append, append_assoc, append_assoc) at next)

-- A row that fits is stored, and what lies before and behind it stays.
set_row-append :
    (front row behind : Bytes)
    → set_row (front ++ (zeros (length row) ++ behind)) row (length front)
      ≡ some (front ++ (row ++ behind))
unfolding set_row
set_row-append front row behind = rw (fits, write_from-append front row behind) refl
  where
    room :
        length (front ++ (zeros (length row) ++ behind))
        ≡ length front + (length row + length behind)
    room = rw (length-append front, length-append (zeros (length row)), length-replicate) refl

    fits :
        ltb (length (front ++ (zeros (length row) ++ behind))) (length front + length row) ≡ false
    fits = ground (arith, room)

drop-add : (i k : ℕ) (xs : Bytes) → drop (i + k) xs ≡ drop k (drop i xs)
drop-add zero k xs = ap (λ n. drop n xs) (omega arith)
drop-add (suc i) k [] = let e : suc i + k ≡ suc (i + k) = omega arith in rw e (sym (drop-nil k))
  where
    drop-nil : (k : ℕ) → drop {A = ℕ} k [] ≡ []
    drop-nil zero = refl
    drop-nil (suc k) = refl
drop-add (suc i) k (x ∷ xs) =
    let e : suc i + k ≡ suc (i + k) = omega arith in rw e (drop-add i k xs)

rows_loop-rows :
    (input front : Bytes) (n i : ℕ) (row_lengths : List ℕ)
    → rows_loop input n row_lengths i (length front) (front ++ zeros (n * length row_lengths))
      ≡ some (front ++ rows (drop i input) n row_lengths)
unfolding rows_loop row
rows_loop-rows input front n i [] = let e : n * 0 ≡ 0 = omega arith in rw e refl
rows_loop-rows input front n i (row_length ∷ row_lengths) =
    let part = row (take row_length (drop i input)) n in
    let behind = zeros (n * length row_lengths) in
    let size : length part ≡ n = length-pad n _ in
    let room : zeros (n * suc (length row_lengths)) ≡ zeros (length part) ++ behind =
      rw size (rw (← zeros-add n (n * length row_lengths)) (ap zeros (omega arith))) in
    let stored : set_row (front ++ (zeros (length part) ++ behind)) part (length front)
        ≡ some (front ++ (part ++ behind)) =
      set_row-append front part behind in
    let next = rows_loop-rows input (front ++ part) n (i + row_length) row_lengths in
    rw (decompress_rle-expand (take row_length (drop i input)) n, room, stored)
      (rw
        (
          length-append front part,
          size,
          drop-add i row_length input,
          append_assoc front part behind,
          append_assoc front part (rows (drop row_length (drop i input)) n row_lengths),
        )
        at next)

-- Every row of the output is its part of the input decompressed by itself, whatever the lengths
-- say, and no write falls outside of the output.
pub decompress_rle_rows-rows :
    (input : Bytes) (row_lengths : List ℕ) (n : ℕ)
    → decompress_rle_rows input row_lengths n ≡ some (rows input n row_lengths)
unfolding decompress_rle_rows
decompress_rle_rows-rows input row_lengths n = rows_loop-rows input [] n 0 row_lengths
