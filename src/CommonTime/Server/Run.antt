-- ===== src/CommonTime/Server/Run.antt =====
-- The loop of CommonTimeServer::runStateMachine_l, of libs/common_time/common_time_server.cpp: every pass
-- keeps the invariant, so no assertion of the state machine fails.
use f2ut_platform_frameworks.Prelude.{
  Bool-cases, List, Option, Option-cases, ap, arith, inl, inr, none, refl, some, true, ℕ, ◌≡◌,
}
use f2ut_platform_frameworks.CommonTime.ClockOps.{ClockOps}
use f2ut_platform_frameworks.CommonTime.Packets.{
  Body, Packet, deserialize_packet, master_announcement, sync_request, sync_response,
  who_is_master_request, who_is_master_response,
}
use f2ut_platform_frameworks.CommonTime.Server.{
  Endpoint, Env, Server, SyncState, cleanup_socket, client, initial, is_client, is_initial,
  is_master, is_ronin, master, ronin, set_force_low_priority, wait_for_election,
}
use f2ut_platform_frameworks.CommonTime.Server.Handlers.{dispatch, handle_packet}
use f2ut_platform_frameworks.CommonTime.Server.Invariant.{
  Ensures, Ensures-if, Inv, become_initial-Inv, become_master-Inv, become_ronin-Inv,
  send_master_announcement-Inv, send_sync_request-Inv, send_who_is_master_request-Inv,
}
use f2ut_platform_frameworks.CommonTime.Server.Loop.{
  Wakeup, drop_socket, enter_networkless, expire, iterate, joined_network, receive, setup_socket,
  try_setup,
}
use f2ut_platform_frameworks.CommonTime.Server.Safety.{
  NamesTimeline, handle_master_announcement-Inv, handle_sync_request-Inv, handle_sync_response-Inv,
  handle_who_is_master_request-Inv, handle_who_is_master_response-Inv, set_force_low_priority-Inv,
}
use f2ut_platform_frameworks.CommonTime.Server.Timeouts.{
  handle_timeout, handle_timeout_client, handle_timeout_initial, handle_timeout_master,
  handle_timeout_ronin, handle_timeout_wait_for_election, missed_sync, timeout_in,
}
use f2ut_platform_frameworks.CommonTime.Server.Transitions.{assign_timeline_id}

-- A datagram of the server's group in which a peer claims to be master names a valid timeline.
abbrev pub SanePeer : Option (List ℕ) → ℕ → Type 0
SanePeer none group = Unit {0}
SanePeer (some bytes) group =
    (p : Packet) → deserialize_packet bytes group ≡ some p → NamesTimeline p.body p.timeline_id

module _ (ops : ClockOps) where
  open ops use {Clk, is_valid}

  dispatch-Inv :
      (env : Env) (b : Body) (timeline : ℕ) (src : Endpoint) (s : Server Clk)
      → Inv ops s
      → s.has_socket ≡ true
      → NamesTimeline b timeline
      → Ensures ops (Inv ops) (dispatch ops env b timeline src s)
  unfolding dispatch
  dispatch-Inv env (who_is_master_request id prio) timeline src s v h n =
      handle_who_is_master_request-Inv ops env timeline id prio src s v
  dispatch-Inv env (who_is_master_response id prio) timeline src s v h n =
      handle_who_is_master_response-Inv ops env timeline id prio src s v h n
  dispatch-Inv env (sync_request tx) timeline src s v h n =
      handle_sync_request-Inv ops env timeline tx src s v
  dispatch-Inv env (sync_response tx mrx mtx nak) timeline src s v h n =
      handle_sync_response-Inv ops env tx mrx mtx nak src s v h
  dispatch-Inv env (master_announcement id prio) timeline src s v h n =
      handle_master_announcement-Inv ops env timeline id prio src s v h n

  handle_packet-Inv :
      (env : Env) (datagram : Option (List ℕ)) (src : Endpoint) (s : Server Clk)
      → Inv ops s
      → s.has_socket ≡ true
      → SanePeer datagram s.sync_group_id
      → Ensures ops (Inv ops) (handle_packet ops env datagram src s)
  unfolding handle_packet
  handle_packet-Inv env none src s v h n = v
  handle_packet-Inv env (some bytes) src s v h n =
      elim (Option-cases (deserialize_packet bytes s.sync_group_id)) [
        | inl e ↦ rw (e, handle_packet) v
        | inr (p, e) ↦
            rw (e, handle_packet) (dispatch-Inv env p.body p.timeline_id src s v h (n p e))
      ]

  module _ (env : Env) (id : ℕ) (drawn : assign_timeline_id env.draws ≡ some id) where
    handle_timeout_initial-Inv :
        (s : Server Clk)
        → Inv ops s
        → is_initial s.state ≡ true
        → Ensures ops (Inv ops) (handle_timeout_initial ops env s)
    unfolding handle_timeout_initial
    handle_timeout_initial-Inv s v h =
        Ensures-if ops (Inv ops) _ _ _ (become_master-Inv ops env _ id v.basis drawn)
          (send_who_is_master_request-Inv ops env _ (ground arith) (ground arith))

    handle_timeout_ronin-Inv :
        (s : Server Clk)
        → Inv ops s
        → s.has_socket ≡ true
        → is_ronin s.state ≡ true
        → Ensures ops (Inv ops) (handle_timeout_ronin ops env s)
    unfolding handle_timeout_ronin
    handle_timeout_ronin-Inv s v k h =
        Ensures-if ops (Inv ops) _ _ _ (become_master-Inv ops env _ id v.basis drawn)
          (send_who_is_master_request-Inv ops env _ (ground arith) (ground arith))

    handle_timeout_client-Inv :
        (s : Server Clk)
        → Inv ops s
        → s.has_socket ≡ true
        → is_client s.state ≡ true
        → Ensures ops (Inv ops) (handle_timeout_client ops env s)
    unfolding handle_timeout_client
    handle_timeout_client-Inv s v h c =
        let missed : Inv ops (missed_sync ops env s) = ground arith in
        ground (
          arith,
          become_initial-Inv ops env s,
          send_sync_request-Inv ops env (missed_sync ops env s) missed h c,
          become_ronin-Inv ops env (missed_sync ops env s) missed h,
          send_sync_request-Inv ops env s v h c,
        )

    timeout_in-Inv :
        (st : SyncState) (s : Server Clk)
        → s.state ≡ st
        → Inv ops s
        → s.has_socket ≡ true
        → Ensures ops (Inv ops) (timeout_in ops env st s)
    unfolding timeout_in handle_timeout_master handle_timeout_wait_for_election
    timeout_in-Inv initial s e v h = handle_timeout_initial-Inv s v (ap is_initial e)
    timeout_in-Inv client s e v h = handle_timeout_client-Inv s v h (ap is_client e)
    timeout_in-Inv master s e v h = send_master_announcement-Inv ops env s v (ap is_master e)
    timeout_in-Inv ronin s e v h = handle_timeout_ronin-Inv s v h (ap is_ronin e)
    timeout_in-Inv wait_for_election s e v h = become_ronin-Inv ops env s v h

    pub handle_timeout-Inv :
        (s : Server Clk) → Inv ops s → Ensures ops (Inv ops) (handle_timeout ops env s)
    unfolding handle_timeout
    handle_timeout-Inv s v = elim (Bool-cases s.has_socket) [
      | inl h ↦ simp h (timeout_in-Inv s.state s refl v h)
      | inr h ↦ simp h v
    ]

  module _ (w : Wakeup) (id : ℕ) (drawn : assign_timeline_id w.env.draws ≡ some id) where
    joined_network-Inv :
        (s : Server Clk)
        → Inv ops s
        → s.has_socket ≡ true
        → Ensures ops (Inv ops) (joined_network ops w s)
    unfolding joined_network set_force_low_priority
    joined_network-Inv s v h =
        let low = set_force_low_priority true s in
        let socket : low.has_socket ≡ true = ground arith in
        ground (
          arith,
          become_initial-Inv ops w.env low,
          become_ronin-Inv ops w.env low (set_force_low_priority-Inv ops w.env true s v) socket,
        )

    setup_socket-Inv :
        (s : Server Clk)
        → Inv ops s
        → Inv ops (setup_socket w.hardware_address s).0
          × ((setup_socket w.hardware_address s).0.has_socket
              ≡ (setup_socket w.hardware_address s).1)
    unfolding setup_socket cleanup_socket
    setup_socket-Inv s v = ground arith

    try_setup-Inv : (s : Server Clk) → Inv ops s → Ensures ops (Inv ops) (try_setup ops w s)
    unfolding try_setup
    try_setup-Inv s v =
        let (v', e) = setup_socket-Inv s v in
        ground (arith, joined_network-Inv (setup_socket w.hardware_address s).0 v')

    enter_networkless-Inv :
        (s : Server Clk) → Inv ops s → Ensures ops (Inv ops) (enter_networkless ops w s)
    unfolding enter_networkless
    enter_networkless-Inv s v =
        ground
          (arith, become_initial-Inv ops w.env s, become_master-Inv ops w.env s id v.basis drawn)

    receive-Inv :
        (s : Server Clk)
        → Inv ops s
        → SanePeer w.datagram s.sync_group_id
        → Ensures ops (Inv ops) (receive ops w s)
    unfolding receive
    receive-Inv s v n =
        let s' : Server Clk = record s { last_packet_rx_local_time = w.wakeup_time } in
        let v' : Inv ops s' = ground arith in
        ground
          (arith, λ (h : s.has_socket ≡ true). handle_packet-Inv w.env w.datagram w.src s' v' h n)

    pub drop_socket-Inv :
        (s : Server Clk)
        → Inv ops s
        → Inv ops (drop_socket ops w s).0
          × ((drop_socket ops w s).0.sync_group_id ≡ s.sync_group_id)
    unfolding drop_socket cleanup_socket
    drop_socket-Inv s v = ground arith

    pub expire-Inv :
        (s : Server Clk)
        → Inv ops s
        → Inv ops (expire ops w s) × ((expire ops w s).sync_group_id ≡ s.sync_group_id)
    unfolding expire
    expire-Inv s v = ground arith

    -- If a valid timeline identifier is drawn and the peers that claim to be master name valid
    -- timelines, one pass of the state machine's loop from a state that keeps the invariant fails
    -- no assertion and ends in a state that keeps it: a client knows its master's address, a
    -- server on no timeline has no common time, one in RONIN or WAIT_FOR_ELECTION has, and one
    -- that left INITIAL is on a timeline.
    pub iterate-Inv :
        (s : Server Clk)
        → Inv ops s
        → SanePeer w.datagram s.sync_group_id
        → Ensures ops (Inv ops) (iterate ops w s)
    unfolding iterate
    iterate-Inv s v n =
        let (v1, e1) = expire-Inv s v in
        let (v2, e2) = drop_socket-Inv (expire ops w s) v1 in
        let s2 = (drop_socket ops w (expire ops w s)).0 in
        let n2 : SanePeer w.datagram s2.sync_group_id = rw (e2, e1) n in
        ground (
          arith,
          try_setup-Inv s2 v2,
          enter_networkless-Inv s2 v2,
          handle_timeout-Inv w.env id drawn s2 v2,
          receive-Inv s2 v2 n2,
        )
