-- ===== src/Packet/Format.antt =====
-- The wire format of main/mesh_data_packet.c: what is packed is unpacked again, within the buffer.
use ble_mesh_sensor.Common.{
  ℕ, ◌+◌, ◌%◌, ◌≤◌, ◌<◌, ◌≡◌, List, ◌∷◌, ◌++◌, arith, length, take, drop, replicate, leb, true,
  length-take_of_le, length-append, length-drop, take_prefix,
}
use ble_mesh_sensor.World.{
  Packet, World, ret, stop, bad_access, has_room, has_room-true, has_room-false, is_success, malloc,
  logged, ◌>>=◌,
}
use ble_mesh_sensor.Packet.{mdp_pack, mdp_unpack, data_packet_max_size}

-- The six header bytes, then the first `data_length` bytes of the data.
abbrev pub encoded : Packet → List ℕ
encoded p =
    p.source
    ∷ p.dest
    ∷ p.ttl
    ∷ p.idempotency_key
    ∷ p.type
    ∷ p.data_length
    ∷ take p.data_length p.bytes

-- Data that fits the buffer behind the pointer and the 15 bytes that a packed packet has for it.
pub record IsPackable (p : Packet) : Type 0 where
  pub allocated : p.data_length ≤ length p.bytes
  pub short : p.data_length ≤ 15

-- Packing a packet whose data fits into a buffer of 21 bytes puts the six header bytes and the
-- data at the front, leaves the rest of the buffer, and reports their length.
pub mdp_pack-encoded :
    (w : World) (b0 b1 b2 b3 b4 b5 : ℕ) (rest : List ℕ) (p : Packet)
    → IsPackable p
    → length rest ≡ 15
    → mdp_pack (b0 ∷ b1 ∷ b2 ∷ b3 ∷ b4 ∷ b5 ∷ rest) data_packet_max_size p w
      ≡ ret (encoded p ++ drop p.data_length rest, 6 + p.data_length) w
unfolding mdp_pack
mdp_pack-encoded w b0 b1 b2 b3 b4 b5 rest p ok l = rw (
  has_room-true p.data_length p.bytes ok.allocated,
  length-take_of_le p.data_length p.bytes ok.allocated,
  has_room-true p.data_length rest (omega arith),
  small,
  fits,
  room,
)
  where
    small : (6 + p.data_length) % 256 ≡ 6 + p.data_length
    small = omega arith

    fits : leb (6 + p.data_length) 21 ≡ true
    fits = ground arith

    room : has_room (6 + p.data_length) (encoded p ++ drop p.data_length rest) ≡ true
    room = has_room-true (6 + p.data_length) (encoded p ++ drop p.data_length rest) (
        omega (
          arith,
          length-append (encoded p) (drop p.data_length rest),
          length-drop p.data_length rest,
          length-take_of_le p.data_length p.bytes ok.allocated,
        ))

-- The packet that six header bytes and the bytes behind them stand for.
abbrev pub decoded : ℕ → ℕ → ℕ → ℕ → ℕ → ℕ → List ℕ → Packet
decoded source dest ttl key type data_length rest = record {
  source = source;
  dest = dest;
  ttl = ttl;
  idempotency_key = key;
  type = type;
  data_length = data_length;
  bytes = take data_length rest;
}

-- Unpacking a buffer with six header bytes whose length byte lies within what follows gives the
-- packet that they stand for, when the allocation succeeds.
pub mdp_unpack-decoded :
    (w : World) (b0 b1 b2 b3 b4 n : ℕ) (rest : List ℕ)
    → is_success (w.host.rc (malloc n ∷ w.calls)) ≡ true
    → n ≤ length rest
    → mdp_unpack (b0 ∷ b1 ∷ b2 ∷ b3 ∷ b4 ∷ n ∷ rest) w
      ≡ ret (decoded b0 b1 b2 b3 b4 n rest) (logged (malloc n) w)
unfolding mdp_unpack
mdp_unpack-decoded w b0 b1 b2 b3 b4 n rest allocated fits = rw (
  allocated,
  has_room-true n rest fits,
  has_room-true n (take n rest) (omega (arith, length-take_of_le n rest fits)),
)

-- A length byte that claims more than the buffer holds makes unpacking read out of bounds.
pub mdp_unpack_overrun :
    (w : World) (b0 b1 b2 b3 b4 n : ℕ) (rest : List ℕ)
    → length rest < n
    → mdp_unpack (b0 ∷ b1 ∷ b2 ∷ b3 ∷ b4 ∷ n ∷ rest) w ≡ stop bad_access (logged (malloc n) w)
unfolding mdp_unpack
mdp_unpack_overrun w b0 b1 b2 b3 b4 n rest h = ground (arith, has_room-false n rest h)

-- Packing a packet with more data, all allocated, than the buffer has behind its six header bytes
-- writes out of bounds.
pub mdp_pack_overrun :
    (w : World) (b0 b1 b2 b3 b4 b5 : ℕ) (rest : List ℕ) (p : Packet)
    → p.data_length ≤ length p.bytes
    → length rest < p.data_length
    → mdp_pack (b0 ∷ b1 ∷ b2 ∷ b3 ∷ b4 ∷ b5 ∷ rest) data_packet_max_size p w ≡ stop bad_access w
unfolding mdp_pack
mdp_pack_overrun w b0 b1 b2 b3 b4 b5 rest p ok long = rw (
  has_room-true p.data_length p.bytes ok,
  length-take_of_le p.data_length p.bytes ok,
  has_room-false p.data_length rest long,
)

-- A packet whose data fits its buffer and the 15 bytes that a packed packet has for data, packed
-- into a fresh buffer and unpacked again with the allocation succeeding, is the packet itself with
-- its data cut to `data_length`; only that one allocation is made.
pub unpack-pack :
    (w : World) (p : Packet)
    → IsPackable p
    → is_success (w.host.rc (malloc p.data_length ∷ w.calls)) ≡ true
    → (mdp_pack (replicate data_packet_max_size 0) data_packet_max_size p >>= λ r. mdp_unpack r.0) w
      ≡ ret (record p { bytes = take p.data_length p.bytes }) (logged (malloc p.data_length) w)
unpack-pack w p ok allocated = rw (
  mdp_pack-encoded w 0 0 0 0 0 0 (replicate 15 0) p ok (omega arith),
  mdp_unpack-decoded w p.source p.dest p.ttl p.idempotency_key p.type p.data_length
      (take p.data_length p.bytes ++ drop p.data_length (replicate 15 0)) allocated room,
  take_prefix p.data_length p.bytes (drop p.data_length (replicate 15 0)) ok.allocated,
)
  where
    room :
        p.data_length ≤ length (take p.data_length p.bytes ++ drop p.data_length (replicate 15 0))
    room = omega (
      arith,
      length-append (take p.data_length p.bytes) (drop p.data_length (replicate 15 0)),
      length-take_of_le p.data_length p.bytes ok.allocated,
    )
