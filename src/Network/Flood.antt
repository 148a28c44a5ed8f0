-- ===== src/Network/Flood.antt =====
-- A flood of messages for none of the nodes comes to an end.
use ble_mesh_sensor.Common.{
  ℕ, zero, suc, ◌+◌, ◌*◌, ◌==◌, ==_iff, ◌≤◌, ◌≡◌, List, [], ◌∷◌, ◌++◌, Bool, true, false, arith,
  refl, sym, ap, subst, ◌∙◌, length, take, All, All-append, All-left, All-right, length-append,
  take-append, if◌then◌else◌,
}
use native.Mathlib.Nat.{mul-le-mul_right}
use ble_mesh_sensor.World.{World, Packet, Handler, success, ret, Ensures, M, ⊤}
use ble_mesh_sensor.Peer.Handles.{Distinct}
use ble_mesh_sensor.Packet.Count.{MallocSucceeds}
use ble_mesh_sensor.Node.Send.{chr_w_data_uuid}
use ble_mesh_sensor.Node.Receive.{mn_receive_data}
use ble_mesh_sensor.Network.{
  Message, Net, writes, newer, routed, put, Delivers, deliver, Run, rests, goes_on,
}
use ble_mesh_sensor.Network.Relay.{
  IsForeign, ttl_of, IsRelaying, CopiesSucceed, Relayed, receive-Relayed,
}

-- How many messages one with some hops left can become, where a node has at most d peers: itself, and
-- for each peer of the node that it reaches what the message with one hop fewer can become.
abbrev pub weight : ℕ → ℕ → ℕ
weight d zero = 1
weight d (suc ttl) = 1 + d * weight d ttl

abbrev pub total : ℕ → List Message → ℕ
total d [] = 0
total d ((i, om) ∷ flying) = weight d (ttl_of om) + total d flying

total-append : (d : ℕ) (xs ys : List Message) → total d (xs ++ ys) ≡ total d xs + total d ys
total-append d [] ys = omega arith
total-append d ((i, om) ∷ xs) ys = omega (arith, total-append d xs ys)

-- All nodes relay, their ids are known, and every message on the way is for none of them.
pub record IsFlood (ids : ℕ → ℕ) (d : ℕ) (net : Net) : Type 0 where
  pub relaying : (i : ℕ) → IsRelaying d (net.nodes i)
  pub known : (i : ℕ) → (net.nodes i).node.our_node_id ≡ ids i
  pub foreign : All (λ (m : Message). IsForeign ids m.1) net.flying

newer-append : {A : Type 0} (new old : List A) → newer (new ++ old) old ≡ new
newer-append new old =
    subst (λ n. take n (new ++ old) ≡ new) (omega (arith, length-append new old))
      (take-append new old)

put_each :
    (P : ℕ → World → Type 0) (i : ℕ) (w : World) (nodes : ℕ → World)
    → P i w
    → ((j : ℕ) → P j (nodes j))
    → (j : ℕ) → P j (put i w nodes j)
put_each P i w nodes new old j = go (j == i) refl
  where
    go : (b : Bool) → (j == i) ≡ b → P j (if b then w else nodes j)
    go true e = subst (λ k. P k w) (sym ((==_iff j i).0 e)) new
    go false e = old j

suc_inj : {m n : ℕ} → suc m ≡ suc n → m ≡ n
suc_inj e = omega arith

module _ (route : ℕ → ℕ → ℕ) (ids : ℕ → ℕ) (d i : ℕ) where
  total-routed :
      (ttl : ℕ) (new : List (ℕ × List ℕ))
      → All (λ t. IsForeign ids t.1 × (suc (ttl_of t.1) ≡ suc ttl)) new
      → total d (routed route i new) ≡ length new * weight d ttl
  total-routed ttl [] all = omega arith
  total-routed ttl ((h, bytes) ∷ new) all =
      omega (arith, total-routed ttl new all.1, ap (weight d) (suc_inj all.0.1))

  routed-IsForeign :
      (ttl : ℕ) (new : List (ℕ × List ℕ))
      → All (λ t. IsForeign ids t.1 × (suc (ttl_of t.1) ≡ ttl)) new
      → All (λ (m : Message). IsForeign ids m.1) (routed route i new)
  routed-IsForeign ttl [] all = tt
  routed-IsForeign ttl ((h, bytes) ∷ new) all = (all.0.0, routed-IsForeign ttl new all.1)

  -- What a message becomes weighs less than it did.
  total_less :
      (ttl : ℕ) (new : List (ℕ × List ℕ))
      → length new ≤ d
      → All (λ t. IsForeign ids t.1 × (suc (ttl_of t.1) ≡ ttl)) new
      → suc (total d (routed route i new)) ≤ weight d ttl
  total_less zero [] few all = omega arith
  total_less zero (t ∷ new) few all = absurd (omega (arith, all.0.1))
  total_less (suc ttl) new few all =
      omega (arith, total-routed ttl new all, mul-le-mul_right (weight d ttl) few)

IsRelaying-Relayed :
    (ids : ℕ → ℕ) (d : ℕ) (om : List ℕ) (w w' : World)
    → IsRelaying d w
    → Relayed ids d om w w'
    → IsRelaying d w'
IsRelaying-Relayed ids d om w w' r s = record {
  accepts = subst (λ h. h.uuid_eq chr_w_data_uuid chr_w_data_uuid ≡ true) (sym s.0) r.accepts;
  allocates = subst MallocSucceeds (sym s.0) r.allocates;
  copies = subst CopiesSucceed (sym s.0) r.copies;
  distinct = subst Distinct (sym s.2) r.distinct;
  quiet = subst (λ n. n.resend_packets ≡ false) (sym s.1) r.quiet;
  few = subst (λ ps. length ps ≤ d) (sym s.2) r.few;
}

module _ (run_handler : Handler → Packet → M ⊤) (route : ℕ → ℕ → ℕ) (ids : ℕ → ℕ) (d : ℕ) where
  arrives :
      (i : ℕ) (om : List ℕ) (w w' : World)
      → IsRelaying d w
      → w.node.our_node_id ≡ ids i
      → IsForeign ids om
      → mn_receive_data run_handler chr_w_data_uuid true om w ≡ ret success w'
      → Relayed ids d om w w'
  arrives i om w w' r id f e =
      let answer = receive-Relayed run_handler ids d i w om r id f in
      subst (Ensures (λ _. Relayed ids d om w)) e
        (subst (Ensures (λ _. Relayed ids d om w)) (sym answer.1.0) answer.1.1)

  -- The net once a node has handled a message and others are on the way in its place.
  abbrev after_delivery : Net → ℕ → World → List Message → List Message → List Message → Net
  after_delivery net i w' before more after = record {
    nodes = put i w' net.nodes;
    flying = before ++ (more ++ after);
  }

  spreads :
      (net : Net) (i : ℕ) (om : List ℕ) (before after : List Message) (w' : World)
      → IsFlood ids d net
      → net.flying ≡ before ++ ((i, om) ∷ after)
      → Relayed ids d om (net.nodes i) w'
      → (new : List (ℕ × List ℕ)) → length new ≤ d
      → All (λ t. IsForeign ids t.1 × (suc (ttl_of t.1) ≡ ttl_of om)) new
      → IsFlood ids d (after_delivery net i w' before (routed route i new) after)
        × (suc (total d (before ++ (routed route i new ++ after))) ≤ total d net.flying)
  spreads net i om before after w' flood e s new few all =
      let foreign = subst (All (λ (m : Message). IsForeign ids m.1)) e flood.foreign in
      let rest = All-right (λ (m : Message). IsForeign ids m.1) before ((i, om) ∷ after) foreign in
      (
        record {
          relaying =
              put_each (λ _. IsRelaying d) i w' net.nodes
                (IsRelaying-Relayed ids d om (net.nodes i) w' (flood.relaying i) s) flood.relaying;
          known =
              put_each (λ j w. w.node.our_node_id ≡ ids j) i w' net.nodes
                (ap (λ n. n.our_node_id) s.1 ∙ flood.known i) flood.known;
          foreign =
              All-append (λ (m : Message). IsForeign ids m.1) before (routed route i new ++ after)
                (All-left (λ (m : Message). IsForeign ids m.1) before ((i, om) ∷ after) foreign)
                (All-append (λ (m : Message). IsForeign ids m.1) (routed route i new) after
                  (routed-IsForeign route ids d i (ttl_of om) new all) rest.1);
        },
        omega (
          arith,
          ap (total d) e,
          total-append d before ((i, om) ∷ after),
          total-append d before (routed route i new ++ after),
          total-append d (routed route i new) after,
          total_less route ids d i (ttl_of om) new few all,
        ),
      )

  -- A delivery keeps the flood one, and takes at least one off what the messages can become.
  deliver_less :
      (net net' : Net)
      → IsFlood ids d net
      → Delivers run_handler route net net'
      → IsFlood ids d net' × (suc (total d net'.flying) ≤ total d net.flying)
  deliver_less net net' flood (deliver i om before after w' e received) =
      let s =
        arrives i om (net.nodes i) w' (flood.relaying i) (flood.known i)
          (All-right (λ (m : Message). IsForeign ids m.1) before ((i, om) ∷ after)
            (subst (All (λ (m : Message). IsForeign ids m.1)) e flood.foreign)).0
          received in
      let spread = s.3 in
      let more : newer (writes w'.calls) (writes (net.nodes i).calls) ≡ spread.0 =
        ap (λ ws. newer ws (writes (net.nodes i).calls)) spread.1
        ∙ newer-append spread.0 (writes (net.nodes i).calls) in
      subst
        (λ ts.
          IsFlood ids d (after_delivery net i w' before (routed route i ts) after)
          × (suc (total d (before ++ (routed route i ts ++ after))) ≤ total d net.flying))
        (sym more) (spreads net i om before after w' flood e s spread.0 spread.2 spread.3)

  -- In a network whose nodes relay, each with at most d peers, and where every message on the way
  -- has 7 to 21 bytes with a data length of 1 to 15, is for an id that no node has and is no sleep
  -- command, every sequence of deliveries, in any order, has at most as many of them as the
  -- messages on the way can become, less what those that are left can still become; a message with
  -- t hops left counts as 1 + d + ... + d^t. A node relays when allocations and the copy out of
  -- the host's buffer succeed, its peers have distinct handles and no resend is due.
  pub flood_bounded :
      {n : ℕ} {net' : Net} (net : Net)
      → IsFlood ids d net
      → Run run_handler route n net net'
      → n + total d net'.flying ≤ total d net.flying
  flood_bounded net flood (rests net'') = omega arith
  flood_bounded net flood (goes_on {net' = next} step run) =
      let less = deliver_less net next flood step in
      omega (arith, less.1, flood_bounded next less.0 run)

  abbrev pub DiesOut : Net → Type 0
  DiesOut net = (n : ℕ) × (net' : Net) × Run run_handler route n net net' × (net'.flying ≡ [])

  -- The first message on the way can always be delivered.
  first_delivered :
      (net : Net) (i : ℕ) (om : List ℕ) (after : List Message)
      → IsFlood ids d net
      → net.flying ≡ (i, om) ∷ after
      → (net' : Net) × Delivers run_handler route net net'
  first_delivered net i om after flood e =
      let answer =
        receive-Relayed run_handler ids d i (net.nodes i) om (flood.relaying i) (flood.known i)
          (subst (All (λ (m : Message). IsForeign ids m.1)) e flood.foreign).0 in
      (_, deliver i om [] after answer.0 e answer.1.0)

  dies_from :
      (k : ℕ) (net : Net) (flying : List Message)
      → net.flying ≡ flying
      → IsFlood ids d net
      → total d net.flying ≤ k
      → DiesOut net
  dies_from k net [] e flood small = (0, net, rests net, e)
  dies_from zero net ((i, om) ∷ after) e flood small =
      let (net', step) = first_delivered net i om after flood e in
      absurd (omega (arith, (deliver_less net net' flood step).1, small))
  dies_from (suc k) net ((i, om) ∷ after) e flood small =
      let (net', step) = first_delivered net i om after flood e in
      let less = deliver_less net net' flood step in
      let (n, net'', run, empty) =
        dies_from k net' net'.flying refl less.0 (omega (arith, less.1, small)) in
      (suc n, net'', goes_on step run, empty)

  -- In a network whose nodes relay, each with at most d peers, and where every message on the way
  -- has 7 to 21 bytes with a data length of 1 to 15, is for an id that no node has and is no sleep
  -- command, there is a sequence of deliveries after which no message is on the way.
  pub flood_dies_out : (net : Net) → IsFlood ids d net → DiesOut net
  flood_dies_out net flood = dies_from (total d net.flying) net net.flying refl flood (omega arith)
