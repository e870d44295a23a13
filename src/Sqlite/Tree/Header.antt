-- ===== src/Sqlite/Tree/Header.antt =====
-- `parseBTreeHeader` and `getCellOffset` of utils/sqlite/btree.ts on the bytes of a page.
use hydrui.Base.{ℕ, ◌+◌, ◌*◌, ◌≡◌, refl, ap, subst, Option, none, some, List, [], ◌∷◌, length}
use hydrui.Sqlite.View.{View, ok, follow, read_uint8, read_uint, read_uint16, read_at, byte_at}
use hydrui.Sqlite.View.Varint.{Holds, moved, read_uint8-Holds}
use hydrui.Sqlite.Record.Columns.{number_from, read_uint-Holds}
use hydrui.Sqlite.Tree.{
  BTreeHeader, parse_btree_header, get_cell_offset, header_offset, table_leaf, table_interior,
}

-- Two bytes, the higher one first.
abbrev pub two : ℕ → ℕ → ℕ
two a b = (0 * 256 + a) * 256 + b

read_at-byte : (v : View) (i b : ℕ) → byte_at v i ≡ some b → read_at i read_uint8 v ≡ ok (b, v)
unfolding read_at
read_at-byte v i b h = ap (λ r. follow r (λ n w. ok (n, v))) (read_uint8-Holds (moved v i) b h)

read_at-two :
    (v : View) (i a b : ℕ) → Holds v i (a ∷ b ∷ []) → read_at i read_uint16 v ≡ ok (two a b, v)
unfolding read_at
read_at-two v i a b h =
    ap (λ r. follow r (λ n w. ok (n, v))) (read_uint-Holds (a ∷ b ∷ []) 0 (moved v i) h)

-- The first eight bytes of a page's header.
pub record IsHeader (page : View) (page_type cell_count : ℕ) : Type 0 where
  pub free_high : ℕ
  pub free_low : ℕ
  pub count_high : ℕ
  pub count_low : ℕ
  pub area_high : ℕ
  pub area_low : ℕ
  pub fragmented : ℕ
  pub counted : two count_high count_low ≡ cell_count
  pub type_at : byte_at page (0 + header_offset page) ≡ some page_type
  pub free_at : Holds page (1 + header_offset page) (free_high ∷ free_low ∷ [])
  pub count_at : Holds page (3 + header_offset page) (count_high ∷ count_low ∷ [])
  pub area_at : Holds page (5 + header_offset page) (area_high ∷ area_low ∷ [])
  pub fragmented_at : byte_at page (7 + header_offset page) ≡ some fragmented

abbrev pub header_of : {page : View} {t n : ℕ} → IsHeader page t n → Option ℕ → BTreeHeader
header_of {t} {n} h right = record {
  page_type = t;
  first_freeblock = two h.free_high h.free_low;
  cell_count = n;
  cell_content_area = two h.area_high h.area_low;
  fragmented_free_bytes = h.fragmented;
  right_most_pointer = right;
}

pub parse_btree_header-leaf :
    (page : View) (n : ℕ) (h : IsHeader page table_leaf n) (x : ℕ)
    → parse_btree_header (moved page x) ≡ ok (header_of h none, moved page (header_offset page))
unfolding parse_btree_header
parse_btree_header-leaf page n h x =
    rw
      (
        read_at-byte (moved page x) (0 + header_offset page) table_leaf h.type_at,
        read_at-two (moved page x) (1 + header_offset page) h.free_high h.free_low h.free_at,
        read_at-two (moved page x) (3 + header_offset page) h.count_high h.count_low h.count_at,
        read_at-two (moved page x) (5 + header_offset page) h.area_high h.area_low h.area_at,
        read_at-byte (moved page x) (7 + header_offset page) h.fragmented h.fragmented_at,
        h.counted,
      )
      refl

pub parse_btree_header-interior :
    (page : View) (n : ℕ) (right : List ℕ) (h : IsHeader page table_interior n)
    → length right ≡ 4
    → Holds page (8 + header_offset page) right
    → (x : ℕ)
    → parse_btree_header (moved page x)
      ≡ ok (
        header_of h (some (number_from 0 right)),
        moved page (8 + header_offset page + length right),
      )
unfolding parse_btree_header
parse_btree_header-interior page n right h four at x =
    rw
      (
        read_at-byte (moved page x) (0 + header_offset page) table_interior h.type_at,
        read_at-two (moved page x) (1 + header_offset page) h.free_high h.free_low h.free_at,
        read_at-two (moved page x) (3 + header_offset page) h.count_high h.count_low h.count_at,
        read_at-two (moved page x) (5 + header_offset page) h.area_high h.area_low h.area_at,
        read_at-byte (moved page x) (7 + header_offset page) h.fragmented h.fragmented_at,
        h.counted,
        number,
      )
      refl
  where
    number :
        read_uint 4 0 (moved page (8 + header_offset page))
        ≡ ok (number_from 0 right, moved page (8 + header_offset page + length right))
    number =
        subst
          (λ k.
            read_uint k 0 (moved page (8 + header_offset page))
            ≡ ok (number_from 0 right, moved page (8 + header_offset page + length right)))
          four (read_uint-Holds right 0 (moved page (8 + header_offset page)) at)

pub get_cell_offset-leaf :
    (page : View) (i a b : ℕ)
    → byte_at page (0 + header_offset page) ≡ some table_leaf
    → Holds page (8 + i * 2 + header_offset page) (a ∷ b ∷ [])
    → get_cell_offset i page ≡ ok (two a b, page)
unfolding get_cell_offset
get_cell_offset-leaf page i a b type_at at =
    rw (read_at-byte page (0 + header_offset page) table_leaf type_at)
      (read_at-two page (8 + i * 2 + header_offset page) a b at)

pub get_cell_offset-interior :
    (page : View) (i a b : ℕ)
    → byte_at page (0 + header_offset page) ≡ some table_interior
    → Holds page (12 + i * 2 + header_offset page) (a ∷ b ∷ [])
    → get_cell_offset i page ≡ ok (two a b, page)
unfolding get_cell_offset
get_cell_offset-interior page i a b type_at at =
    rw (read_at-byte page (0 + header_offset page) table_interior type_at)
      (read_at-two page (12 + i * 2 + header_offset page) a b at)
