-- ===== src/Util/Ids.antt =====
-- Record identifiers as the eight bytes of a log file: the host's order is little endian, and
-- DARSHAN_BSWAP64 of darshan-util/darshan-logutils.h turns the bytes of a log of the other order.
use darshan.Prelude.{
  ℕ, zero, suc, ◌+◌, ◌*◌, ◌/◌, ◌%◌, ◌<◌, ◌≡◌, refl, ap, ◌∙◌, sym, Bool, true, false, List, [], ◌∷◌,
  ◌++◌, if◌then◌else◌, arith, length,
}
use darshan.Prelude.Words.{word}

-- The `n` low bytes of a number in memory.
unfoldable pub bytes_of : ℕ → ℕ → List ℕ
bytes_of zero v = []
bytes_of (suc n) v = (v % 256) ∷ bytes_of n (v / 256)

unfoldable pub value_of : List ℕ → ℕ
value_of [] = 0
value_of (b ∷ bs) = b + 256 * value_of bs

unfoldable pub turned : List ℕ → List ℕ
turned [] = []
turned (b ∷ bs) = turned bs ++ b ∷ []

-- DARSHAN_BSWAP64
unfoldable pub bswap64 : ℕ → ℕ
bswap64 v = value_of (turned (bytes_of 8 v))

-- An identifier as a host writes it, `swap` being whether that host has the other byte order.
unfoldable pub write_id : Bool → ℕ → List ℕ
write_id swap id = if swap then turned (bytes_of 8 id) else bytes_of 8 id

unfoldable pub read_id : Bool → List ℕ → ℕ
unfolding bswap64
read_id swap bytes = if swap then bswap64 (value_of bytes) else value_of bytes

AllBytes : List ℕ → Type 0
AllBytes [] = Unit
AllBytes (b ∷ bs) = (b < 256) × AllBytes bs

AllBytes-append : (xs ys : List ℕ) → AllBytes xs → AllBytes ys → AllBytes (xs ++ ys)
unfolding AllBytes
AllBytes-append [] ys p q = q
AllBytes-append (x ∷ xs) ys p q = (p.0, AllBytes-append xs ys p.1 q)

turned-AllBytes : (xs : List ℕ) → AllBytes xs → AllBytes (turned xs)
unfolding AllBytes turned
turned-AllBytes [] p = tt
turned-AllBytes (x ∷ xs) p = AllBytes-append (turned xs) (x ∷ []) (turned-AllBytes xs p.1) (p.0, tt)

bytes_of-AllBytes : (n v : ℕ) → AllBytes (bytes_of n v)
unfolding AllBytes bytes_of
bytes_of-AllBytes zero v = tt
bytes_of-AllBytes (suc n) v = (omega arith, bytes_of-AllBytes n (v / 256))

bytes_of-value : (xs : List ℕ) → AllBytes xs → bytes_of (length xs) (value_of xs) ≡ xs
unfolding AllBytes bytes_of value_of
bytes_of-value [] p = refl
bytes_of-value (x ∷ xs) p =
    let low : (x + 256 * value_of xs) % 256 ≡ x = omega (arith, p.0) in
    let high : (x + 256 * value_of xs) / 256 ≡ value_of xs = omega (arith, p.0) in
    rw (low, high, bytes_of-value xs p.1) refl

turned-append : (xs : List ℕ) (b : ℕ) → turned (xs ++ b ∷ []) ≡ b ∷ turned xs
unfolding turned
turned-append [] b = refl
turned-append (x ∷ xs) b = rw (turned-append xs b) refl

turned-turned : (xs : List ℕ) → turned (turned xs) ≡ xs
unfolding turned
turned-turned [] = refl
turned-turned (x ∷ xs) = rw (turned-append (turned xs) x, turned-turned xs) refl

-- What is left of a number after its `n` low bytes.
above : ℕ → ℕ → ℕ
above zero v = v
above (suc n) v = above n (v / 256)

value_of-bytes : (n v : ℕ) → above n v ≡ 0 → value_of (bytes_of n v) ≡ v
unfolding above value_of bytes_of
value_of-bytes zero v h = sym h
value_of-bytes (suc n) v h = omega (arith, value_of-bytes n (v / 256) h)

above-word : (v : ℕ) → v < word → above 8 v ≡ 0
unfolding above
above-word v h = omega arith

length-turned : (id : ℕ) → length (turned (bytes_of 8 id)) ≡ 8
unfolding bytes_of turned
length-turned id = refl

pub length-write_id : (swap : Bool) (id : ℕ) → length (write_id swap id) ≡ 8
unfolding write_id bytes_of turned
length-write_id true id = refl
length-write_id false id = refl

-- An identifier of 64 bits is read back, whichever byte order it was written in.
pub read_id-write_id : (swap : Bool) (id : ℕ) → id < word → read_id swap (write_id swap id) ≡ id
unfolding read_id write_id bswap64
read_id-write_id false id h = value_of-bytes 8 id (above-word id h)
read_id-write_id true id h =
    let xs = turned (bytes_of 8 id) in
    let fine = turned-AllBytes (bytes_of 8 id) (bytes_of-AllBytes 8 id) in
    let back : bytes_of 8 (value_of xs) ≡ xs =
      ap (λ n. bytes_of n (value_of xs)) (sym (length-turned id)) ∙ bytes_of-value xs fine in
    rw (back, turned-turned (bytes_of 8 id)) (value_of-bytes 8 id (above-word id h))
