-- ===== src/Sqlite/View/Varint.antt =====
-- `readVarint` of utils/sqlite/dataview.ts and the format that it reads.
use hydrui.Base.{
  ℕ, zero, suc, ◌+◌, ◌*◌, ◌/◌, ◌%◌, ◌^◌, ◌<◌, ◌≤◌, ◌≡◌, refl, ap, subst, ◌∙◌, true, false, some,
  List, [], ◌∷◌, ◌++◌, length, arith, ltb, if◌then◌else◌, All,
}
use hydrui.Sqlite.View.{
  View, ok, pos, signed, byte_at, read_uint8, varint_from, varint_round, read_varint, follow, pure,
}

-- The bytes that the window has from an offset on.
abbrev pub Holds : View → ℕ → List ℕ → Type 0
Holds v i [] = Unit
Holds v i (b ∷ bs) = (byte_at v i ≡ some b) × Holds v (i + 1) bs

abbrev pub moved : View → ℕ → View
moved v i = record v { offset = i }

pub read_uint8-Holds :
    (v : View) (b : ℕ) → byte_at v v.offset ≡ some b → read_uint8 v ≡ ok (b, moved v (v.offset + 1))
unfolding read_uint8
read_uint8-Holds v b h = rw h refl

-- A number by its digits of seven bits, the highest first.
abbrev pub value_from : ℕ → List ℕ → ℕ
value_from x [] = x
value_from x (d ∷ ds) = value_from (x * 128 + d) ds

-- The lowest `k` digits of a number, in front of others.
unfoldable pub digits : ℕ → ℕ → List ℕ → List ℕ
digits zero n rest = rest
digits (suc k) n rest = digits k (n / 128) (n % 128 ∷ rest)

-- The format: every byte but the last one has its highest bit set.
abbrev pub marked : List ℕ → List ℕ
marked [] = []
marked (d ∷ []) = d ∷ []
marked (d ∷ e ∷ ds) = (d + 128) ∷ marked (e ∷ ds)

pub value_from-digits :
    (k n : ℕ) (rest : List ℕ) → n < 128 ^ k → value_from 0 (digits k n rest) ≡ value_from n rest
unfolding digits
value_from-digits zero n rest h = ap (λ x. value_from x rest) (omega arith)
value_from-digits (suc k) n rest h =
    let power : 128 ^ suc k ≡ 128 * 128 ^ k = omega arith in
    value_from-digits k (n / 128) (n % 128 ∷ rest) (omega arith)
    ∙ ap (λ x. value_from x rest) (omega arith)

pub length-digits : (k n : ℕ) (rest : List ℕ) → length (digits k n rest) ≡ k + length rest
unfolding digits
length-digits zero n rest = omega arith
length-digits (suc k) n rest = omega (arith, length-digits k (n / 128) (n % 128 ∷ rest))

pub digits-All :
    (k n : ℕ) (rest : List ℕ) → All (λ d. d < 128) rest → All (λ d. d < 128) (digits k n rest)
unfolding digits
digits-All zero n rest h = h
digits-All (suc k) n rest h = digits-All k (n / 128) (n % 128 ∷ rest) (omega arith, h)

varint_from-step :
    (rounds value b : ℕ) (v : View)
    → byte_at v v.offset ≡ some b
    → varint_from (suc rounds) value v ≡ (
        if ltb b 128
        then ok ((value * 128) % 2 ^ 32 + b % 128, moved v (v.offset + 1))
        else varint_from rounds ((value * 128) % 2 ^ 32 + b % 128) (moved v (v.offset + 1)))
unfolding varint_from
varint_from-step rounds value b v h =
    ap (λ r. follow r (varint_round (varint_from rounds) value)) (read_uint8-Holds v b h)

varint_from-marked :
    (rounds x : ℕ) (d : ℕ) (ds : List ℕ) (v : View)
    → length ds < rounds
    → All (λ d. d < 128) (d ∷ ds)
    → Holds v v.offset (marked (d ∷ ds))
    → varint_from rounds (x % 2 ^ 32) v
      ≡ ok (value_from x (d ∷ ds) % 2 ^ 32, moved v (v.offset + suc (length ds)))
varint_from-marked zero x d ds v fits small h = absurd (omega arith)
varint_from-marked (suc rounds) x d [] v fits small h =
    let last : ltb d 128 ≡ true = ground arith in
    let value : (x % 2 ^ 32 * 128) % 2 ^ 32 + d % 128 ≡ (x * 128 + d) % 2 ^ 32 = omega arith in
    varint_from-step rounds (x % 2 ^ 32) d v h.0 ∙ rw (last, value) refl
varint_from-marked (suc rounds) x d (e ∷ ds) v fits small h =
    let more : ltb (d + 128) 128 ≡ false = ground arith in
    let value : (x % 2 ^ 32 * 128) % 2 ^ 32 + (d + 128) % 128 ≡ (x * 128 + d) % 2 ^ 32 =
      omega arith in
    let after : v.offset + 1 + suc (length ds) ≡ v.offset + suc (suc (length ds)) = omega arith in
    varint_from-step rounds (x % 2 ^ 32) (d + 128) v h.0
    ∙ rw (more, value)
        (varint_from-marked rounds (x * 128 + d) e ds (moved v (v.offset + 1)) (omega arith) small.1
            h.1
          ∙ ap (λ i. ok (value_from (x * 128 + d) (e ∷ ds) % 2 ^ 32, moved v i)) after)

varint_from-digits :
    (ds : List ℕ) (v : View)
    → 0 < length ds
    → length ds ≤ 8
    → All (λ d. d < 128) ds
    → Holds v v.offset (marked ds)
    → varint_from 8 0 v ≡ ok (value_from 0 ds % 2 ^ 32, moved v (v.offset + length ds))
varint_from-digits [] v some_digit few small h = absurd (omega arith)
varint_from-digits (d ∷ ds) v some_digit few small h =
    varint_from-marked 8 0 d ds v (omega arith) small h

signed-small : (n : ℕ) → n < 2 ^ 31 → signed (2 ^ 31) (n % 2 ^ 32) ≡ pos n
unfolding signed
signed-small n h =
    let same : n % 2 ^ 32 ≡ n = omega arith in
    let small : ltb n (2 ^ 31) ≡ true = ground arith in rw (same, small) refl

-- A number of at most eight digits of seven bits is read as its lowest 32 bits, with the highest of them as a sign:
-- a number below 2^31 as itself. The offset moves behind the digits.
pub read_varint-digits :
    (k n : ℕ) (v : View)
    → k < 8
    → n < 128 ^ suc k
    → Holds v v.offset (marked (digits (suc k) n []))
    → (read_varint v ≡ ok (signed (2 ^ 31) (n % 2 ^ 32), moved v (v.offset + suc k)))
      × (n < 2 ^ 31 → read_varint v ≡ ok (pos n, moved v (v.offset + suc k)))
unfolding read_varint
read_varint-digits k n v few bound h =
    let ds = digits (suc k) n [] in
    let count : length ds ≡ suc k = length-digits (suc k) n [] ∙ add_zero (suc k) in
    let read : varint_from 8 0 v ≡ ok (n % 2 ^ 32, moved v (v.offset + suc k)) =
      varint_from-digits ds v (omega arith) (omega arith) (digits-All (suc k) n [] tt) h
      ∙ ap (λ x. ok (x % 2 ^ 32, moved v (v.offset + length ds)))
          (value_from-digits (suc k) n [] bound)
      ∙ ap (λ c. ok (n % 2 ^ 32, moved v (v.offset + c))) count in
    let whole : read_varint v ≡ ok (signed (2 ^ 31) (n % 2 ^ 32), moved v (v.offset + suc k)) =
      ap (λ r. follow r (λ x. pure (signed (2 ^ 31) x))) read in
    (whole, λ small. whole ∙ ap (λ x. ok (x, moved v (v.offset + suc k))) (signed-small n small))
  where
    add_zero : (n : ℕ) → n + 0 ≡ n
    add_zero n = omega arith

pub Holds-append_left : (xs ys : List ℕ) (v : View) (i : ℕ) → Holds v i (xs ++ ys) → Holds v i xs
Holds-append_left [] ys v i h = tt
Holds-append_left (x ∷ xs) ys v i h = (h.0, Holds-append_left xs ys v (i + 1) h.1)

pub Holds-append_right :
    (xs ys : List ℕ) (v : View) (i : ℕ) → Holds v i (xs ++ ys) → Holds v (i + length xs) ys
Holds-append_right [] ys v i h = subst (λ j. Holds v j ys) (add_zero i) h
  where
    add_zero : (i : ℕ) → i ≡ i + 0
    add_zero i = omega arith
Holds-append_right (x ∷ xs) ys v i h =
    subst (λ j. Holds v j ys) (shift i xs) (Holds-append_right xs ys v (i + 1) h.1)
  where
    shift : (i : ℕ) (xs : List ℕ) → i + 1 + length xs ≡ i + suc (length xs)
    shift i xs = omega arith

pub length-marked : (ds : List ℕ) → length (marked ds) ≡ length ds
length-marked [] = refl
length-marked (d ∷ []) = refl
length-marked (d ∷ e ∷ ds) = ap suc (length-marked (e ∷ ds))

-- What the window has lies in it.
pub Holds-length :
    (b : ℕ) (bs : List ℕ) (v : View) (i : ℕ)
    → Holds v i (b ∷ bs)
    → i + suc (length bs) ≤ v.byte_length
Holds-length b [] v i h = inside (h.0)
  where
    inside : byte_at v i ≡ some b → i + 1 ≤ v.byte_length
    inside e = ground arith
Holds-length b (c ∷ bs) v i h = omega (arith, Holds-length c bs v (i + 1) h.1)
