-- ===== src/Psd/Tests.antt =====
-- The test data of file/psd/packbits.test.ts, and instances of the theorems about PackBits.
use hydrui.Base.{◌≡◌, refl, some, List, [], ◌∷◌, arith}
use hydrui.Psd.PackBits.{
  decompress_rle, decompress_loop, decompress_rle_rows, rows_loop, set_row, write_from, fill, copy,
}
use hydrui.Psd.PackBits.Decode.{pad, expand, decompress_rle-expand}
use hydrui.Psd.PackBits.Packets.{
  Packet, run, literal, encode_all, meaning_all, decompress_rle-encode_all,
}
use hydrui.Psd.PackBits.Rows.{rows, decompress_rle_rows-rows}

abbrev packets : List Packet
packets =
    run 3 0xaa
    ∷ literal 0x80 (0x00 ∷ 0x2a ∷ [])
    ∷ run 4 0xaa
    ∷ literal 0x80 (0x00 ∷ 0x2a ∷ 0x22 ∷ [])
    ∷ run 10 0xaa
    ∷ []

basic_case :
    encode_all packets
    ≡ 0xfe ∷ 0xaa ∷ 0x02 ∷ 0x80 ∷ 0x00 ∷ 0x2a ∷ 0xfd ∷ 0xaa ∷ 0x03 ∷ 0x80 ∷ 0x00 ∷ 0x2a ∷ 0x22
      ∷ 0xf7 ∷ 0xaa ∷ []
basic_case = refl

-- The test of two rows, which reads four bytes of the second packet and keeps three.
two_rows :
    decompress_rle_rows (0xfe ∷ 0xaa ∷ 0xfd ∷ 0xbb ∷ []) (2 ∷ 2 ∷ []) 3
    ≡ some (0xaa ∷ 0xaa ∷ 0xaa ∷ 0xbb ∷ 0xbb ∷ 0xbb ∷ [])
unfolding decompress_rle_rows rows_loop set_row write_from decompress_rle decompress_loop fill copy
two_rows = refl

decompress_rle-encode_all_example :
    decompress_rle (encode_all packets) 24 ≡ some (meaning_all packets)
decompress_rle-encode_all_example = decompress_rle-encode_all packets 24 (omega arith)

decompress_rle-expand_example :
    decompress_rle (0xfe ∷ 0xaa ∷ 0x05 ∷ 0x01 ∷ []) 6
    ≡ some (pad 6 (expand 5 (0xfe ∷ 0xaa ∷ 0x05 ∷ 0x01 ∷ [])))
decompress_rle-expand_example = decompress_rle-expand (0xfe ∷ 0xaa ∷ 0x05 ∷ 0x01 ∷ []) 6

decompress_rle_rows-rows_example :
    decompress_rle_rows (0xfe ∷ 0xaa ∷ 0xfd ∷ 0xbb ∷ []) (2 ∷ 2 ∷ []) 3
    ≡ some (rows (0xfe ∷ 0xaa ∷ 0xfd ∷ 0xbb ∷ []) 3 (2 ∷ 2 ∷ []))
decompress_rle_rows-rows_example =
    decompress_rle_rows-rows (0xfe ∷ 0xaa ∷ 0xfd ∷ 0xbb ∷ []) (2 ∷ 2 ∷ []) 3
