-- ===== src/Misc/Text.antt =====
-- That the bytes which main/mesh_misc.c prints can be read back.
use ble_mesh_sensor.Common.{
  ℕ, zero, suc, ◌+◌, ◌-◌, ◌*◌, ◌/◌, ◌%◌, ◌<◌, ◌≡◌, ◌≢◌, List, [], ◌∷◌, ◌++◌, true, false, ltb,
  if◌then◌else◌, arith, length, All, take_all, refl, Bool-cases, inl, inr,
}
use ble_mesh_sensor.World.{World, has_room-true, Returns}
use ble_mesh_sensor.Misc.{hex_digit, hex_byte, mesh_addr_str}
use ble_mesh_sensor.Misc.Print.{
  bytes_from, mesh_print_bytes, mesh_print_addr, mbuf_from, mbufs_from, mesh_print_mbuf, newline,
  digits, decimal,
}

-- The value of a hexadecimal digit.
abbrev pub unhex : ℕ → ℕ
unhex c = if ltb c 58 then c - 48 else c - 87

-- The bytes that pairs of digits with one character between them stand for.
abbrev pub parse_bytes : List ℕ → List ℕ
parse_bytes (c ∷ d ∷ []) = (unhex c * 16 + unhex d) ∷ []
parse_bytes (c ∷ d ∷ e ∷ text) = (unhex c * 16 + unhex d) ∷ parse_bytes text
parse_bytes _ = []

abbrev pub IsByte : ℕ → Type 0
IsByte b = b < 256

unhex-hex_digit : (d : ℕ) → d < 16 → unhex (hex_digit d) ≡ d
unfolding hex_digit
unhex-hex_digit d h = ground arith

pair-byte : (b : ℕ) → IsByte b → unhex (hex_digit (b / 16)) * 16 + unhex (hex_digit (b % 16)) ≡ b
pair-byte b h =
    omega (arith, unhex-hex_digit (b / 16) (omega arith), unhex-hex_digit (b % 16) (omega arith))

parse-bytes_from :
    (i b : ℕ) (bytes : List ℕ)
    → IsByte b
    → All IsByte bytes
    → parse_bytes (hex_byte b ++ bytes_from (suc i) bytes) ≡ b ∷ bytes
unfolding bytes_from hex_byte
parse-bytes_from i b [] h hs = ground (arith, pair-byte b h)
parse-bytes_from i b (c ∷ bytes) h hs =
    ground (arith, pair-byte b h, parse-bytes_from (suc i) c bytes hs.0 hs.1)

-- Bytes that are printed are read back from the text, and printing changes nothing.
parse-print_bytes :
    (bytes : List ℕ) (w : World)
    → All IsByte bytes
    → Returns
        (λ text w'. (parse_bytes text ≡ bytes) × (w' ≡ w))
        (mesh_print_bytes bytes (length bytes) w)
unfolding mesh_print_bytes bytes_from
parse-print_bytes [] w h = ground arith
parse-print_bytes (b ∷ bytes) w h = ground (
  arith,
  has_room-true (length bytes) bytes (omega arith),
  take_all bytes,
  parse-bytes_from 0 b bytes h.0 h.1,
)

-- An address is printed as its six bytes from the last to the first.
print_addr-print_bytes :
    (b0 b1 b2 b3 b4 b5 : ℕ) (w : World)
    → mesh_print_addr (b0 ∷ b1 ∷ b2 ∷ b3 ∷ b4 ∷ b5 ∷ []) w
      ≡ mesh_print_bytes (b5 ∷ b4 ∷ b3 ∷ b2 ∷ b1 ∷ b0 ∷ []) 6 w
unfolding mesh_print_addr mesh_print_bytes bytes_from mesh_addr_str hex_byte
print_addr-print_bytes b0 b1 b2 b3 b4 b5 w = refl

-- A buffer that is not empty.
abbrev pub IsFull : List ℕ → Type 0
IsFull om = om ≢ []

abbrev pub concat : List (List ℕ) → List ℕ
concat [] = []
concat (om ∷ oms) = om ++ concat oms

mbuf_from_later : (i j : ℕ) (bytes : List ℕ) → mbuf_from (suc i) bytes ≡ mbuf_from (suc j) bytes
unfolding mbuf_from hex_byte
mbuf_from_later i j [] = refl
mbuf_from_later i j (b ∷ bytes) = ground (arith, mbuf_from_later (suc i) (suc j) bytes)

-- What follows the bytes of a buffer is the bytes of the next ones.
mbufs_from-concat :
    (i : ℕ) (bytes : List ℕ) (oms : List (List ℕ))
    → All IsFull oms
    → mbuf_from (suc i) bytes ++ mbufs_from true oms
      ≡ mbuf_from (suc i) (bytes ++ concat oms) ++ newline
unfolding mbuf_from mbufs_from hex_byte
mbufs_from-concat i [] [] full = refl
mbufs_from-concat i [] ([] ∷ oms) full = absurd (full.0 refl)
mbufs_from-concat i [] ((b ∷ bytes) ∷ oms) full =
    ground
      (arith, mbufs_from-concat 0 bytes oms full.1, mbuf_from_later 0 (suc i) (bytes ++ concat oms))
mbufs_from-concat i (b ∷ bytes) oms full = ground (arith, mbufs_from-concat (suc i) bytes oms full)

-- The text that is printed for a chain of buffers, none of them empty, is the text for one buffer
-- with all their bytes, however the bytes are split.
print_mbuf_split :
    (om : List ℕ) (oms : List (List ℕ))
    → All IsFull (om ∷ oms)
    → mesh_print_mbuf (om ∷ oms) ≡ mesh_print_mbuf (concat (om ∷ oms) ∷ [])
unfolding mesh_print_mbuf mbufs_from mbuf_from hex_byte
print_mbuf_split [] oms full = absurd (full.0 refl)
print_mbuf_split (b ∷ bytes) oms full = ground (arith, mbufs_from-concat 0 bytes oms full.1)

-- The number that decimal digits stand for, after the digits read so far.
abbrev pub parse_decimal : ℕ → List ℕ → ℕ
parse_decimal n [] = n
parse_decimal n (c ∷ text) = parse_decimal (n * 10 + (c - 48)) text

parse_decimal-append :
    (n : ℕ) (xs ys : List ℕ) → parse_decimal n (xs ++ ys) ≡ parse_decimal (parse_decimal n xs) ys
parse_decimal-append n [] ys = refl
parse_decimal-append n (x ∷ xs) ys = parse_decimal-append (n * 10 + (x - 48)) xs ys

ten_less : (turns n : ℕ) → n < suc turns → ltb n 10 ≡ false → n / 10 < turns
ten_less turns n h large = ground (arith, h, large)

parse-digits : (turns n : ℕ) → n < turns → parse_decimal 0 (digits turns n) ≡ n
unfolding digits
parse-digits zero n h = absurd (omega arith)
parse-digits (suc turns) n h = elim (Bool-cases (ltb n 10)) [
  | inl small ↦ ground (arith, small)
  | inr large ↦ ground (
    arith,
    large,
    parse-digits turns (n / 10) (ten_less turns n h large),
    parse_decimal-append 0 (digits turns (n / 10)) ((n % 10 + 48) ∷ []),
  )
]

-- A number is read back from its decimal digits, so that there are enough turns for all of them.
parse-decimal : (n : ℕ) → parse_decimal 0 (decimal n) ≡ n
unfolding decimal
parse-decimal n = parse-digits (suc n) n (omega arith)
