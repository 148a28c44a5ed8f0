-- ===== src/Packet/Count.antt =====
-- Allocation of packets in main/mesh_data_packet.c: the count of packets and what a copy holds.
use mathlib.Core.List.{append-nil}
use ble_mesh_sensor.Common.{
  ℕ, zero, suc, ◌≡◌, refl, List, [], ◌∷◌, arith, length, drop, replicate, true, take_all,
  length-replicate,
}
use ble_mesh_sensor.World.{
  Packet, World, Host, ℤ, pos, negsuc, ret, is_success, malloc, Call, has_room-true, suc_ℤ, pred_ℤ,
}
use ble_mesh_sensor.Packet.{mdp_alloc, mdp_copy_packet, packet_size}

-- No allocation fails.
abbrev pub MallocSucceeds : Host → Type 0
MallocSucceeds host = (n : ℕ) (cs : List Call) → is_success (host.rc (malloc n ∷ cs)) ≡ true

-- The world once a packet with n bytes of data has been allocated.
abbrev pub with_packet : ℕ → World → World
with_packet n w = record w {
  calls = malloc n ∷ malloc packet_size ∷ w.calls;
  allocated_packets = suc_ℤ w.allocated_packets;
}

pub mdp_alloc_lem :
    (n : ℕ) (w : World)
    → MallocSucceeds w.host
    → mdp_alloc n w
      ≡ ret
          (record {
            source = 0;
            dest = 0;
            ttl = 0;
            idempotency_key = 0;
            type = 0;
            data_length = 0;
            bytes = replicate n 0;
          })
          (with_packet n w)
unfolding mdp_alloc
mdp_alloc_lem n w ok = rw (ok packet_size w.calls, ok n (malloc packet_size ∷ w.calls))

drop-replicate : (n : ℕ) → drop {A = ℕ} n (replicate n 0) ≡ []
drop-replicate zero = refl
drop-replicate (suc n) = drop-replicate n

-- A packet whose `data_length` is the size of its buffer.
abbrev pub IsExact : Packet → Type 0
IsExact p = p.data_length ≡ length p.bytes

-- A copy of a packet whose `data_length` is the size of its buffer is equal to it, and one more
-- packet is counted, when allocations succeed.
pub mdp_copy_packet_lem :
    (p : Packet) (w : World)
    → MallocSucceeds w.host
    → IsExact p
    → mdp_copy_packet p w ≡ ret p (with_packet p.data_length w)
unfolding mdp_copy_packet mdp_alloc
mdp_copy_packet_lem p w ok exact = rw (
  ok packet_size w.calls,
  ok p.data_length (malloc packet_size ∷ w.calls),
  exact,
  has_room-true (length p.bytes) p.bytes (omega arith),
  take_all p.bytes,
  has_room-true (length p.bytes) (replicate (length p.bytes) 0)
      (omega (arith, length-replicate {0} {A = ℕ} (length p.bytes) 0)),
  drop-replicate (length p.bytes),
  append-nil p.bytes,
)

pub pred_ℤ-suc_ℤ : (z : ℤ) → pred_ℤ (suc_ℤ z) ≡ z
pred_ℤ-suc_ℤ (pos n) = refl
pred_ℤ-suc_ℤ (negsuc zero) = refl
pred_ℤ-suc_ℤ (negsuc (suc n)) = refl
