-- ===== src/Psd/PackBits/Decode.antt =====
-- `decompressRLE` against the packets that PackBits is made of.
use hydrui.Base.{
  ℕ, zero, suc, ◌+◌, ◌-◌, ◌≤◌, ◌<◌, ◌≡◌, refl, ap, sym, ◌∙◌, some, [], ◌∷◌, ◌++◌, length, drop,
  replicate, set, length-append, length-drop, length-replicate, append_assoc, append-nil, arith,
  Bool-cases, inl, inr, ltb, if◌then◌else◌,
}
use hydrui.Psd.PackBits.{Bytes, fill, copy, byte_or_zero, decompress_loop, decompress_rle}

-- The first `n` bytes of `ws`, with zeros behind its end.
abbrev pub pad : ℕ → Bytes → Bytes
pad zero ws = []
pad (suc n) [] = 0 ∷ pad n []
pad (suc n) (w ∷ ws) = w ∷ pad n ws

pub length-pad : (n : ℕ) (ws : Bytes) → length (pad n ws) ≡ n
length-pad zero ws = refl
length-pad (suc n) [] = ap suc (length-pad n [])
length-pad (suc n) (w ∷ ws) = ap suc (length-pad n ws)

pad-nil : (n : ℕ) → replicate n 0 ≡ pad n []
pad-nil zero = refl
pad-nil (suc n) = ap (0 ∷◌) (pad-nil n)

-- The next write, in front of the end or behind it.
set-pad : (n : ℕ) (ws : Bytes) (v : ℕ) → set (pad n ws) (length ws) v ≡ pad n (ws ++ v ∷ [])
set-pad zero ws v = refl
set-pad (suc n) [] v = refl
set-pad (suc n) (w ∷ ws) v = ap (w ∷◌) (set-pad n ws v)

-- Bytes behind the end do not count.
pad-append : (n : ℕ) (ws more : Bytes) → n ≤ length ws → pad n (ws ++ more) ≡ pad n ws
pad-append zero ws more h = refl
pad-append (suc n) [] more h = absurd (omega arith)
pad-append (suc n) (w ∷ ws) more h = ap (w ∷◌) (pad-append n ws more (omega arith))

snoc_length : (ws : Bytes) (v : ℕ) → length (ws ++ v ∷ []) ≡ length ws + 1
snoc_length ws v = length-append ws (v ∷ [])

fill-pad :
    (count n v : ℕ) (ws : Bytes)
    → fill count v (length ws) (pad n ws) ≡ pad n (ws ++ replicate count v)
unfolding fill
fill-pad zero n v ws = ap (pad n) (sym (append-nil ws))
fill-pad (suc count) n v ws =
    rw
      (
        set-pad n ws v,
        ← snoc_length ws v,
        fill-pad count n v (ws ++ v ∷ []),
        append_assoc ws (v ∷ []) (replicate count v),
      )
      refl

copy-pad :
    (count n : ℕ) (input ws : Bytes)
    → copy count input (length ws) (pad n ws) ≡ pad n (ws ++ pad count input)
unfolding copy
copy-pad zero n input ws = ap (pad n) (sym (append-nil ws))
copy-pad (suc count) n [] ws =
    rw
      (
        set-pad n ws 0,
        ← snoc_length ws 0,
        copy-pad count n [] (ws ++ 0 ∷ []),
        append_assoc ws (0 ∷ []) (pad count []),
      )
      refl
copy-pad (suc count) n (b ∷ input) ws =
    rw
      (
        set-pad n ws b,
        ← snoc_length ws b,
        copy-pad count n input (ws ++ b ∷ []),
        append_assoc ws (b ∷ []) (pad count input),
      )
      refl

-- What a compressed text says, without regard to the length of the output: the reading of the
-- packets from the front. `none` is a run out of fuel.
unfoldable pub expand : ℕ → Bytes → Bytes
expand zero input = []
expand (suc f) [] = []
expand (suc f) (header ∷ input) =
    let repeated = replicate (257 - header) (byte_or_zero input) ++ expand f (drop 1 input) in
    let literal = pad (header + 1) input ++ expand f (drop (header + 1) input) in
    let nothing = expand f input in
    if ltb 128 header then repeated else if ltb header 128 then literal else nothing

-- A round that has written `block` leaves the loop in the state that `ws ++ block` describes.
loop_next :
    (f n : ℕ) (input ws block : Bytes) {k : ℕ}
    → length block ≡ k
    → decompress_loop f n input (length (ws ++ block)) (pad n (ws ++ block))
      ≡ some (pad n ((ws ++ block) ++ expand f input))
    → decompress_loop f n input (length ws + k) (pad n (ws ++ block))
      ≡ some (pad n (ws ++ (block ++ expand f input)))
loop_next f n input ws block e h =
    let l : length (ws ++ block) ≡ length ws + _ = length-append ws block ∙ ap (length ws +◌) e in
    rw (l, append_assoc ws block (expand f input)) at h

loop-expand :
    (f n : ℕ) (input ws : Bytes)
    → length input < f
    → decompress_loop f n input (length ws) (pad n ws) ≡ some (pad n (ws ++ expand f input))
unfolding decompress_loop expand
loop-expand zero n input ws h = absurd (omega arith)
loop-expand (suc f) n [] ws h = ap (λ x. some (pad n x)) (sym (append-nil ws))
loop-expand (suc f) n (header ∷ input) ws h = elim (Bool-cases (ltb (length ws) n)) [
  | inr e ↦ rw e (ap some (sym (pad-append n ws _ (ground arith))))
  | inl e ↦ elim (Bool-cases (ltb 128 header)) [
    | inl e₁ ↦
        let block = replicate (257 - header) (byte_or_zero input) in
        rw (e, e₁, fill-pad (257 - header) n (byte_or_zero input) ws)
          (loop_next f n (drop 1 input) ws block (length-replicate (257 - header) _)
            (loop-expand f n (drop 1 input) (ws ++ block) (omega (arith, length-drop {0} 1 input))))
    | inr e₁ ↦ elim (Bool-cases (ltb header 128)) [
      | inl e₂ ↦
          let block = pad (header + 1) input in
          rw (e, e₁, e₂, copy-pad (header + 1) n input ws)
            (loop_next f n (drop (header + 1) input) ws block (length-pad (header + 1) input) (
              loop-expand f n (drop (header + 1) input) (ws ++ block)
                (omega (arith, length-drop {0} (header + 1) input))))
      | inr e₂ ↦ rw (e, e₁, e₂) (loop-expand f n input ws (omega arith))
    ]
  ]
]

-- For every input, packets or not, and every output length the loop ends, and the output is what
-- the input says, cut off at the length or filled up with zeros.
pub decompress_rle-expand :
    (input : Bytes) (n : ℕ)
    → decompress_rle input n ≡ some (pad n (expand (length input + 1) input))
unfolding decompress_rle
decompress_rle-expand input n =
    rw (pad-nil n) (loop-expand (length input + 1) n input [] (omega arith))
