-- ===== src/Network/Relay.antt =====
-- What one node does with a message that is for none of the nodes.
use ble_mesh_sensor.Common.{
  ℕ, zero, suc, ◌≤◌, ◌<◌, ◌≡◌, ◌≢◌, List, [], ◌∷◌, ◌++◌, true, false, arith, refl, sym, ap, subst,
  length, take, All, All-append, append_assoc, ◌⊎◌, inl, inr, ◌∙◌, Option-cases, length-append,
  length-take_of_le,
}
use ble_mesh_sensor.World.{
  World, Host, Peer, Packet, Handler, Call, mbuf_to_flat, free_buf, malloc, is_success, success,
  ret, M, ⊤,
}
use ble_mesh_sensor.Packet.{pt_go_to_sleep, data_packet_max_size}
use ble_mesh_sensor.Packet.Format.{encoded, decoded}
use ble_mesh_sensor.Packet.Count.{MallocSucceeds}
use ble_mesh_sensor.Peer.Lists.{mesh_peer_chr_find_uuid}
use ble_mesh_sensor.Peer.Handles.{Distinct}
use ble_mesh_sensor.Node.Send.{svc_data_uuid, chr_w_data_uuid}
use ble_mesh_sensor.Node.Receive.{mn_receive_data}
use ble_mesh_sensor.Node.Flood.{sent_calls, transmission, flooded}
use ble_mesh_sensor.Node.Relay.{
  message, filled, length-filled, unpacked, receive-relay, receive-dropped,
}
use ble_mesh_sensor.Network.{writes}

-- A message of 7 to 21 bytes with a data length of 1 to 15, for an id that none of the nodes has, and
-- no sleep command.
abbrev pub IsForeign : (ℕ → ℕ) → List ℕ → Type 0
IsForeign ids (b0 ∷ b1 ∷ ttl ∷ b3 ∷ b4 ∷ n ∷ rest) =
    (1 ≤ length rest)
    × (length rest ≤ 15)
    × (1 ≤ n)
    × (n ≤ 15)
    × (ttl < 256)
    × (b4 ≢ pt_go_to_sleep)
    × ((i : ℕ) → b1 ≢ ids i)
IsForeign ids _ = ⊥

abbrev pub ttl_of : List ℕ → ℕ
ttl_of (b0 ∷ b1 ∷ ttl ∷ rest) = ttl
ttl_of _ = 0

-- Messages are copied out of the host's buffers.
abbrev pub CopiesSucceed : Host → Type 0
CopiesSucceed host =
    (om : List ℕ) (cs : List Call) → is_success (host.rc (mbuf_to_flat om ∷ cs)) ≡ true

-- A node with at most d peers for which no resend is due, and whose host does what it is asked for.
pub record IsRelaying (d : ℕ) (w : World) : Type 0 where
  pub accepts : w.host.uuid_eq chr_w_data_uuid chr_w_data_uuid ≡ true
  pub allocates : MallocSucceeds w.host
  pub copies : CopiesSucceed w.host
  pub distinct : Distinct w.peers
  pub quiet : w.node.resend_packets ≡ false
  pub few : length w.peers ≤ d

-- Writes of some bytes, at most d of them, newer than others.
abbrev pub Sent : ℕ → List ℕ → List (ℕ × List ℕ) → List (ℕ × List ℕ) → Type 0
Sent d bytes sent old =
    (new : List (ℕ × List ℕ)) × (sent ≡ new ++ old) × (length new ≤ d) × All (λ t. t.1 ≡ bytes) new

Sent-after :
    (d h : ℕ) (bytes : List ℕ) (sent mid old : List (ℕ × List ℕ))
    → Sent d bytes sent mid
    → (mid ≡ old) ⊎ (mid ≡ (h, bytes) ∷ old)
    → Sent (suc d) bytes sent old
Sent-after d h bytes sent mid old (new, e, few, all) (inl same) =
    (new, e ∙ ap (◌++◌ new) same, omega (arith, few), all)
Sent-after d h bytes sent mid old (new, e, few, all) (inr one) = (
  new ++ ((h, bytes) ∷ []),
  e ∙ ap (◌++◌ new) one ∙ sym (append_assoc new ((h, bytes) ∷ []) old),
  omega (arith, few, length-append new ((h, bytes) ∷ [])),
  All-append (λ t. t.1 ≡ bytes) new ((h, bytes) ∷ []) all (refl, tt),
)

writes-transmission :
    (host : Host) (dp : ℕ) (bytes : List ℕ) (peer : Peer) (cs : List Call)
    → (writes (transmission host dp bytes peer ∷ cs) ≡ writes cs)
      ⊎ (writes (transmission host dp bytes peer ∷ cs) ≡ (peer.conn_handle, bytes) ∷ writes cs)
writes-transmission host dp bytes peer cs =
    ground (arith, Option-cases (mesh_peer_chr_find_uuid host peer svc_data_uuid chr_w_data_uuid))

sent_calls-Sent :
    (host : Host) (dp : ℕ) (bytes : List ℕ) (peers : List Peer) (cs : List Call)
    → Sent (length peers) bytes (writes (sent_calls host dp bytes peers cs)) (writes cs)
sent_calls-Sent host dp bytes [] cs = ([], refl, omega arith, tt)
sent_calls-Sent host dp bytes (peer ∷ peers) cs =
    let cs' = free_buf ∷ transmission host dp bytes peer ∷ malloc data_packet_max_size ∷ cs in
    Sent-after (length peers) peer.conn_handle bytes (writes (sent_calls host dp bytes peers cs'))
      (writes cs') (writes cs) (sent_calls-Sent host dp bytes peers cs')
      (writes-transmission host dp bytes peer (malloc data_packet_max_size ∷ cs))

Sent-le :
    (c d : ℕ) (bytes : List ℕ) (sent old : List (ℕ × List ℕ))
    → c ≤ d
    → Sent c bytes sent old
    → Sent d bytes sent old
Sent-le c d bytes sent old le (new, e, few, all) = (new, e, omega (arith, le, few), all)

-- What a node writes when a message reaches it: at most d messages for none of the nodes, each with
-- one hop fewer.
abbrev pub Spread : (ℕ → ℕ) → ℕ → List ℕ → World → World → Type 0
Spread ids d om w w' =
    (new : List (ℕ × List ℕ)) × (writes w'.calls ≡ new ++ writes w.calls)
    × (length new ≤ d)
    × All (λ t. IsForeign ids t.1 × (suc (ttl_of t.1) ≡ ttl_of om)) new

abbrev pub Relayed : (ℕ → ℕ) → ℕ → List ℕ → World → World → Type 0
Relayed ids d om w w' =
    (w'.host ≡ w.host) × (w'.node ≡ w.node) × (w'.peers ≡ w.peers) × Spread ids d om w w'

All-map :
    {A : Type 0} (P Q : A → Type 0) (xs : List A) → All P xs → ((a : A) → P a → Q a) → All Q xs
All-map P Q [] h k = tt
All-map P Q (x ∷ xs) h k = (k x h.0, All-map P Q xs h.1 k)

Spread-of_Sent :
    (ids : ℕ → ℕ) (d : ℕ) (om bytes : List ℕ) (w w' : World)
    → IsForeign ids bytes
    → suc (ttl_of bytes) ≡ ttl_of om
    → Sent d bytes (writes w'.calls) (writes w.calls)
    → Spread ids d om w w'
Spread-of_Sent ids d om bytes w w' foreign hop (new, e, few, all) = (
  new,
  e,
  few,
  All-map (λ t. t.1 ≡ bytes) _ new all
      λ t same.
        subst (λ b. IsForeign ids b × (suc (ttl_of b) ≡ ttl_of om)) (sym same) (foreign, hop),
)

-- A message for none of the nodes is relayed or dropped.
module _ (run_handler : Handler → Packet → M ⊤) (ids : ℕ → ℕ) (d i : ℕ) where
  abbrev Answered : List ℕ → World → World → Type 0
  Answered om w w' =
      (mn_receive_data run_handler chr_w_data_uuid true om w ≡ ret success w')
      × Relayed ids d om w w'

  dropped :
      (w : World) (b0 b1 b3 b4 n : ℕ) (rest : List ℕ)
      → IsRelaying d w
      → w.node.our_node_id ≡ ids i
      → IsForeign ids (message b0 b1 0 b3 b4 n rest)
      → Answered (message b0 b1 0 b3 b4 n rest) w (unpacked (message b0 b1 0 b3 b4 n rest) n w)
  dropped w b0 b1 b3 b4 n rest r id f = (
    receive-dropped run_handler w chr_w_data_uuid b0 b1 0 b3 b4 n rest r.accepts r.allocates
        (r.copies (message b0 b1 0 b3 b4 n rest) w.calls) r.quiet f.0 f.1 f.3
        (inr ((λ e. f.6 i (e ∙ id)), f.5, refl)),
    (refl, refl, refl, ([], refl, omega arith, tt)),
  )

  sent-IsForeign :
      (b0 b1 ttl b3 b4 n : ℕ) (rest : List ℕ)
      → IsForeign ids (message b0 b1 (suc ttl) b3 b4 n rest)
      → IsForeign ids (encoded (decoded b0 b1 ttl b3 b4 n (filled rest)))
  sent-IsForeign b0 b1 ttl b3 b4 n rest f =
      let once = length-take_of_le n (filled rest) (omega (arith, length-filled rest f.1, f.3)) in
      let len = length-take_of_le n (take n (filled rest)) (omega (arith, once)) in
      (omega (arith, len, f.2), omega (arith, len, f.3), f.2, f.3, omega (arith, f.4), f.5, f.6)

  relayed :
      (w : World) (b0 b1 ttl b3 b4 n : ℕ) (rest : List ℕ)
      → IsRelaying d w
      → w.node.our_node_id ≡ ids i
      → IsForeign ids (message b0 b1 (suc ttl) b3 b4 n rest)
      → Answered (message b0 b1 (suc ttl) b3 b4 n rest) w (
          flooded
            (decoded b0 b1 ttl b3 b4 n (filled rest))
            w.peers
            (unpacked (message b0 b1 (suc ttl) b3 b4 n rest) n w))
  relayed w b0 b1 ttl b3 b4 n rest r id f = (
    subst
        (λ t.
          mn_receive_data run_handler chr_w_data_uuid true (message b0 b1 (suc ttl) b3 b4 n rest) w
          ≡ ret success (
              flooded (decoded b0 b1 t b3 b4 n (filled rest)) w.peers
                (unpacked (message b0 b1 (suc ttl) b3 b4 n rest) n w)))
        (omega arith)
        (receive-relay run_handler w chr_w_data_uuid b0 b1 (suc ttl) b3 b4 n rest r.accepts
          r.allocates (r.copies (message b0 b1 (suc ttl) b3 b4 n rest) w.calls) r.distinct r.quiet
          f.0 f.1 f.3 (λ e. f.6 i (e ∙ id)) f.5 (omega arith) f.4),
    (
      refl,
      refl,
      refl,
      (Spread-of_Sent ids d (message b0 b1 (suc ttl) b3 b4 n rest)
          (encoded (decoded b0 b1 ttl b3 b4 n (filled rest))) w
          (flooded (decoded b0 b1 ttl b3 b4 n (filled rest)) w.peers
            (unpacked (message b0 b1 (suc ttl) b3 b4 n rest) n w))
          (sent-IsForeign b0 b1 ttl b3 b4 n rest f) refl
          (Sent-le (length w.peers) d _ _ _ r.few (
            sent_calls-Sent w.host w.node.dp_value_handle
              (encoded (decoded b0 b1 ttl b3 b4 n (filled rest))) w.peers
              (unpacked (message b0 b1 (suc ttl) b3 b4 n rest) n w).calls))),
    ),
  )

  pub receive-Relayed :
      (w : World) (om : List ℕ)
      → IsRelaying d w
      → w.node.our_node_id ≡ ids i
      → IsForeign ids om
      → (w' : World) × Answered om w w'
  receive-Relayed w [] r id f = elim f [ ]
  receive-Relayed w (b0 ∷ []) r id f = elim f [ ]
  receive-Relayed w (b0 ∷ b1 ∷ []) r id f = elim f [ ]
  receive-Relayed w (b0 ∷ b1 ∷ ttl ∷ []) r id f = elim f [ ]
  receive-Relayed w (b0 ∷ b1 ∷ ttl ∷ b3 ∷ []) r id f = elim f [ ]
  receive-Relayed w (b0 ∷ b1 ∷ ttl ∷ b3 ∷ b4 ∷ []) r id f = elim f [ ]
  receive-Relayed w (b0 ∷ b1 ∷ zero ∷ b3 ∷ b4 ∷ n ∷ rest) r id f =
      (_, dropped w b0 b1 b3 b4 n rest r id f)
  receive-Relayed w (b0 ∷ b1 ∷ suc ttl ∷ b3 ∷ b4 ∷ n ∷ rest) r id f =
      (_, relayed w b0 b1 ttl b3 b4 n rest r id f)
