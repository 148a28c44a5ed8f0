-- ===== src/Node/Pending.antt =====
-- The packets of main/mesh_node.c that await a response, and the timer for resending them.
use ble_mesh_sensor.Common.{
  ℕ, List, [], ◌∷◌, Option, none, some, Bool, true, false, ◌==◌, if◌then◌else◌,
}
use ble_mesh_sensor.World.{
  Packet, Rc, success, enomem, eos, is_success, par_pool, packet_resend_timer, malloc_pool,
  mempool_init, memblock_get, memblock_put, free_pool_mem, timer_create, timer_is_active,
  timer_start, timer_stop, M, ⊤, ◌>>=◌, ◌>>◌, pure, gets, modify, call, call_rc, call_num, assert,
  in_bounds,
}
use ble_mesh_sensor.Packet.{
  mdp_print_packet, mdp_copy_packet, mdp_free, pt_node_connected, pt_node_connected_resp,
}

-- MAX_PACKETS_AWAITING_RESPONSE
abbrev pub max_packets_awaiting_response : ℕ
max_packets_awaiting_response = 2

abbrev pub put_pars : List Packet → M ⊤
put_pars pars = modify (λ w. record w { node = record w.node { pars = pars } })

unfoldable pub mn_stop_resend_packets_timer : M ⊤
mn_stop_resend_packets_timer = do
  rc ← call_rc (timer_stop packet_resend_timer)
  assert (is_success rc)

unfoldable pub mn_start_resend_packets_timer : M ⊤
mn_start_resend_packets_timer = do
  active ← call_num (timer_is_active packet_resend_timer)
  if active == 0
      then (do rc ← call_rc (timer_start packet_resend_timer); assert (is_success rc))
      else pure tt

-- The callback of the timer.
unfoldable pub mn_set_resend_flag : M ⊤
mn_set_resend_flag = modify (λ w. record w { node = record w.node { resend_packets = true } })

unfoldable pub print_packets : List Packet → M ⊤
print_packets [] = pure tt
print_packets (packet ∷ packets) = do mdp_print_packet packet; print_packets packets

unfoldable pub mn_print_packets_awaiting_response : M ⊤
mn_print_packets_awaiting_response = do pars ← gets (λ w. w.node.pars); print_packets pars

-- The block is taken out of the memory of the pool, which must not have been freed.
unfoldable pub mn_add_packet_awaiting_response : Packet → M Rc
mn_add_packet_awaiting_response packet = do
  memory ← gets (λ w. w.node.par_mem)
  in_bounds memory
  block ← call_rc (memblock_get par_pool)
  if is_success block
      then (do
        mdp_print_packet packet
        copy ← mdp_copy_packet packet
        pars ← gets (λ w. w.node.pars)
        put_pars (copy ∷ pars)
        mdp_print_packet copy
        mn_start_resend_packets_timer
        pure success)
      else pure enomem

unfoldable pub mn_find_par_by_type : ℕ → List Packet → Option Packet
mn_find_par_by_type packet_type [] = none
mn_find_par_by_type packet_type (par ∷ pars) =
    if par.type == packet_type then some par else mn_find_par_by_type packet_type pars

-- SLIST_REMOVE of what the search finds.
unfoldable pub remove_par : ℕ → List Packet → List Packet
remove_par packet_type [] = []
remove_par packet_type (par ∷ pars) =
    if par.type == packet_type then pars else par ∷ remove_par packet_type pars

unfoldable pub mn_remove_packet_awaiting_response : ℕ → M Rc
mn_remove_packet_awaiting_response req_packet_type = do
  pars ← gets (λ w. w.node.pars)
  elim (mn_find_par_by_type req_packet_type pars) [
    | none ↦ pure enomem
    | some par ↦ do
      put_pars (remove_par req_packet_type pars)
      mdp_free par
      call_rc (memblock_put par_pool)
  ]

unfoldable pub mesh_node_packet_response_received : Packet → M ⊤
mesh_node_packet_response_received packet =
    if packet.type == pt_node_connected_resp
    then (do _ ← mn_remove_packet_awaiting_response pt_node_connected; pure tt)
    else pure tt

abbrev put_par_mem : Bool → M ⊤
put_par_mem allocated = modify (λ w. record w { node = record w.node { par_mem = allocated } })

-- The code at the label `err`, which the successful path runs into as well.
abbrev free_par_mem : Rc → M Rc
free_par_mem rc = do call (free_pool_mem par_pool); put_par_mem false; pure rc

unfoldable pub mn_packet_resender_init : M Rc
mn_packet_resender_init = do
  mem ← call_rc (malloc_pool par_pool max_packets_awaiting_response)
  put_par_mem (is_success mem)
  if is_success mem
      then (do
        rc ← call_rc (mempool_init par_pool max_packets_awaiting_response)
        if is_success rc
            then (do call (timer_create packet_resend_timer); free_par_mem rc)
            else free_par_mem eos)
      else free_par_mem enomem
