-- ===== src/World/Memory.antt =====
-- `memcpy`, `strncmp` and the printing of bytes, on buffers that are lists of bytes, and LOG_NAME of
-- main/mesh_log.h.
use ble_mesh_sensor.Common.{
  ℕ, zero, suc, ◌≤◌, ◌≡◌, List, [], ◌∷◌, ◌++◌, Bool, true, false, ◌&&◌, length, take, drop, ◌||◌,
  ◌==◌, if◌then◌else◌, arith,
}
use ble_mesh_sensor.World.State.{World}
use ble_mesh_sensor.World.Monad.{Ensures, M, ⊤, Stop, ret, stop}

-- At least n bytes.
abbrev pub has_room : ℕ → List ℕ → Bool
has_room zero bs = true
has_room (suc n) [] = false
has_room (suc n) (b ∷ bs) = has_room n bs

pub has_room-true : (n : ℕ) (bs : List ℕ) → n ≤ length bs → has_room n bs ≡ true
has_room-true zero bs h = ground arith
has_room-true (suc n) [] h = absurd (omega arith)
has_room-true (suc n) (b ∷ bs) h = has_room-true n bs (omega arith)

pub has_room-false : (n : ℕ) (bs : List ℕ) → suc (length bs) ≤ n → has_room n bs ≡ false
has_room-false zero bs h = absurd (omega arith)
has_room-false (suc n) [] h = ground arith
has_room-false (suc n) (b ∷ bs) h = has_room-false n bs (omega arith)

pub le-of_has_room : (n : ℕ) (bs : List ℕ) → has_room n bs ≡ true → n ≤ length bs
le-of_has_room zero bs h = omega arith
le-of_has_room (suc n) [] h = ground arith
le-of_has_room (suc n) (b ∷ bs) h = omega (arith, le-of_has_room n bs h)

-- memcpy(dst, src + off, n), the bytes that reach `dst`
abbrev pub memcpy_from : List ℕ → ℕ → ℕ → M (List ℕ)
memcpy_from src off n w =
    if has_room off src && has_room n (drop off src)
    then ret (take n (drop off src)) w
    else stop Stop.bad_access w

-- memcpy(dst + off, src, length src), the whole of `dst` afterwards
abbrev pub memcpy_to : List ℕ → ℕ → List ℕ → M (List ℕ)
memcpy_to dst off src w =
    if has_room off dst && has_room (length src) (drop off dst)
    then ret (take off dst ++ (src ++ drop (length src) (drop off dst))) w
    else stop Stop.bad_access w

-- A walk over the first n bytes of a buffer that changes nothing, as printing does.
abbrev pub read_bytes : List ℕ → ℕ → M ⊤
read_bytes src n w = if has_room n src then ret tt w else stop Stop.bad_access w

pub memcpy_to_same :
    (dst : List ℕ) (off : ℕ) (src : List ℕ) (w : World)
    → Ensures (λ _ w'. w' ≡ w) (memcpy_to dst off src w)
memcpy_to_same dst off src w = ground arith

pub memcpy_from_same :
    (src : List ℕ) (off n : ℕ) (w : World) → Ensures (λ _ w'. w' ≡ w) (memcpy_from src off n w)
memcpy_from_same src off n w = ground arith

-- strncmp(a, b, n) == 0, on the bytes before the terminating NUL of each.
unfoldable pub strncmp_eq : ℕ → List ℕ → List ℕ → Bool
strncmp_eq zero a b = true
strncmp_eq (suc n) [] [] = true
strncmp_eq (suc n) [] (y ∷ ys) = y == 0
strncmp_eq (suc n) (x ∷ xs) [] = x == 0
strncmp_eq (suc n) (x ∷ xs) (y ∷ ys) = x == y && (x == 0 || strncmp_eq n xs ys)

-- LOG_NAME, "mn"
abbrev pub log_name : List ℕ
log_name = 109 ∷ 110 ∷ []
