-- ===== src/Peer/Handles.antt =====
-- The table of peers in main/mesh_peer.c is a finite map from connection handles.
use mathlib.Core.Option
use ble_mesh_sensor.Common.{ℕ, ◌≡◌, List, [], ◌∷◌, none, some, ◌==◌, if◌then◌else◌, arith, All}
use ble_mesh_sensor.World.{Peer}
use ble_mesh_sensor.Peer.Table.{find_handle, remove_handle, replace_peer}

-- No two peers of the list have the same connection handle.
abbrev pub Distinct : List Peer → Type 0
Distinct [] = Unit {0}
Distinct (peer ∷ peers) = (find_handle peer.conn_handle peers ≡ none) × Distinct peers

pub find-remove :
    (h k : ℕ) (peers : List Peer)
    → Distinct peers
    → find_handle k (remove_handle h peers) ≡ (if k == h then none else find_handle k peers)
unfolding find_handle remove_handle
find-remove h k [] d = ground arith
find-remove h k (peer ∷ peers) d = ground (arith, find-remove h k peers d.1)

pub remove-Distinct :
    (h : ℕ) (peers : List Peer) → Distinct peers → Distinct (remove_handle h peers)
unfolding remove_handle
remove-Distinct h [] d = tt
remove-Distinct h (peer ∷ peers) d =
    ground (arith, remove-Distinct h peers d.1, find-remove h peer.conn_handle peers d.1)

pub find-replace :
    (q : Peer) (k : ℕ) (peers : List Peer)
    → find_handle k (replace_peer q peers) ≡ (
        if k == q.conn_handle
        then Option.map (λ _. q) (find_handle k peers)
        else find_handle k peers)
unfolding find_handle replace_peer
find-replace q k [] = ground arith
find-replace q k (peer ∷ peers) = ground (arith, find-replace q k peers)

pub replace-Distinct :
    (q : Peer) (peers : List Peer) → Distinct peers → Distinct (replace_peer q peers)
unfolding replace_peer
replace-Distinct q [] d = tt
replace-Distinct q (peer ∷ peers) d =
    ground (arith, replace-Distinct q peers d.1, find-replace q peer.conn_handle peers)

pub find_handle-conn_handle :
    (h : ℕ) (peers : List Peer) (p : Peer) → find_handle h peers ≡ some p → p.conn_handle ≡ h
unfolding find_handle
find_handle-conn_handle h [] p e = cc
find_handle-conn_handle h (peer ∷ peers) p e = ground (arith, find_handle-conn_handle h peers p)

-- In a table with distinct handles each peer is the one that its handle finds.
abbrev pub Found : List Peer → List Peer → Type 0
Found table = All (λ p. find_handle p.conn_handle table ≡ some p)

Found-cons :
    (q : Peer) (table xs : List Peer)
    → find_handle q.conn_handle table ≡ none
    → Found table xs
    → Found (q ∷ table) xs
unfolding find_handle
Found-cons q table [] fresh f = tt
Found-cons q table (p ∷ xs) fresh f = ground (arith, Found-cons q table xs fresh f.1)

pub Distinct-Found : (table : List Peer) → Distinct table → Found table table
unfolding find_handle
Distinct-Found [] d = tt
Distinct-Found (q ∷ table) d =
    (ground arith, Found-cons q table table d.0 (Distinct-Found table d.1))
