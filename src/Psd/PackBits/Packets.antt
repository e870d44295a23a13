-- ===== src/Psd/PackBits/Packets.antt =====
-- The packets of PackBits, an encoder of them, and the round trip through `decompressRLE`.
use hydrui.Base.{
  ℕ, zero, suc, ◌+◌, ◌-◌, ◌≤◌, ◌<◌, ◌≡◌, refl, ap, ◌∙◌, true, false, some, List, [], ◌∷◌, ◌++◌, All,
  length, replicate, length-append, arith, drop-length-append, ltb,
}
use hydrui.Psd.PackBits.{Bytes, decompress_rle}
use hydrui.Psd.PackBits.Decode.{pad, expand, decompress_rle-expand}

pub data Packet : Type 0 where
  run : ℕ → ℕ → Packet
  literal : ℕ → Bytes → Packet
  nothing : Packet

-- A run repeats a byte 2 to 128 times; a literal has 1 to 128 bytes.
abbrev pub IsPacket : Packet → Type 0
IsPacket (run count byte) = (2 ≤ count) × (count ≤ 128)
IsPacket (literal byte bytes) = length bytes < 128
IsPacket nothing = Unit

abbrev pub encode : Packet → Bytes
encode (run count byte) = (257 - count) ∷ byte ∷ []
encode (literal byte bytes) = length bytes ∷ byte ∷ bytes
encode nothing = 128 ∷ []

abbrev pub meaning : Packet → Bytes
meaning (run count byte) = replicate count byte
meaning (literal byte bytes) = byte ∷ bytes
meaning nothing = []

abbrev pub encode_all : List Packet → Bytes
encode_all [] = []
encode_all (packet ∷ packets) = encode packet ++ encode_all packets

abbrev pub meaning_all : List Packet → Bytes
meaning_all [] = []
meaning_all (packet ∷ packets) = meaning packet ++ meaning_all packets

pad-length : (xs rest : Bytes) → pad (length xs) (xs ++ rest) ≡ xs
pad-length [] rest = refl
pad-length (x ∷ xs) rest = ap (x ∷◌) (pad-length xs rest)

expand-encode :
    (f : ℕ) (packet : Packet) (rest : Bytes)
    → IsPacket packet
    → expand (suc f) (encode packet ++ rest) ≡ meaning packet ++ expand f rest
unfolding expand
expand-encode f (run count byte) rest h =
    let e : 257 - (257 - count) ≡ count = omega arith in
    let big : ltb 128 (257 - count) ≡ true = ground arith in rw (big, e) refl
expand-encode f (literal byte bytes) rest h =
    let small : ltb 128 (length bytes) ≡ false = ground arith in
    let below : ltb (length bytes) 128 ≡ true = ground arith in
    let n : length bytes + 1 ≡ suc (length bytes) = omega arith in
    rw (small, below, n, pad-length bytes rest, drop-length-append bytes rest) refl
expand-encode f nothing rest h = refl

expand-encode_all :
    (f : ℕ) (packets : List Packet)
    → All IsPacket packets
    → length (encode_all packets) < f
    → expand f (encode_all packets) ≡ meaning_all packets
unfolding expand
expand-encode_all zero packets p h = absurd (omega arith)
expand-encode_all (suc f) [] p h = refl
expand-encode_all (suc f) (packet ∷ packets) p h =
    expand-encode f packet (encode_all packets) p.0
    ∙ ap (meaning packet ++◌) (
        expand-encode_all f packets p.1 (
          omega (arith, length-append {0} (encode packet) (encode_all packets), encode_pos packet)))
  where
    encode_pos : (packet : Packet) → 0 < length (encode packet)
    encode_pos (run count byte) = omega arith
    encode_pos (literal byte bytes) = omega arith
    encode_pos nothing = omega arith

-- The packets of a row are decompressed to what they mean, cut off at the length of the output or
-- filled up with zeros.
pub decompress_rle-encode_all :
    (packets : List Packet) (n : ℕ)
    → All IsPacket packets
    → decompress_rle (encode_all packets) n ≡ some (pad n (meaning_all packets))
decompress_rle-encode_all packets n p =
    rw
      (
        decompress_rle-expand (encode_all packets) n,
        expand-encode_all (length (encode_all packets) + 1) packets p (omega arith),
      )
      refl
