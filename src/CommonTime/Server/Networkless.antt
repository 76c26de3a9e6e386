-- ===== src/CommonTime/Server/Networkless.antt =====
-- Losing the network: the paths of runStateMachine_l, in libs/common_time/common_time_server.cpp, on which
-- the socket is dropped or missing.
use f2ut_platform_frameworks.Prelude.{
  arith, false, inl, inr, not, some, true, ℕ, ◌&&◌, ◌||◌, ◌≡◌, ◌≢◌, ◌⊎◌,
}
use f2ut_platform_frameworks.CommonTime.ClockOps.{ClockOps}
use f2ut_platform_frameworks.CommonTime.Packets.{k_invalid_timeline_id}
use f2ut_platform_frameworks.CommonTime.Server.{
  Endpoint, Env, Outcome, Server, assert_failed, cleanup_socket, client, done, initial, master,
  reset_sync_stats, set_force_low_priority, should_auto_disable, still_drawing,
}
use f2ut_platform_frameworks.CommonTime.Server.Handlers.{handle_sync_request}
use f2ut_platform_frameworks.CommonTime.Server.Invariant.{Ensures, Inv}
use f2ut_platform_frameworks.CommonTime.Server.Loop.{
  Wakeup, drop_socket, enter_networkless, expire, iterate, receive,
}
use f2ut_platform_frameworks.CommonTime.Server.Run.{drop_socket-Inv, expire-Inv}
use f2ut_platform_frameworks.CommonTime.Server.Silence.{take_mastership-master}
use f2ut_platform_frameworks.CommonTime.Server.Timeouts.{handle_timeout}
use f2ut_platform_frameworks.CommonTime.Server.Transitions.{
  assign_timeline_id, become_initial, become_master, create_timeline, send_master_announcement,
  send_packet, send_to, send_who_is_master_request, take_mastership,
}

module _ (ops : ClockOps) where
  open ops use {Clk, is_valid, is_valid-reset_frequency, local_to_common, local_to_common_invalid}

  abbrev pub IsNetworkless : Server Clk → Type 0
  IsNetworkless s = (s.state ≡ initial) ⊎ (s.state ≡ master)

  become_initial-initial :
      (env : Env) (s : Server Clk)
      → Ensures ops (λ s'. s'.state ≡ initial) (become_initial ops env s)
  unfolding become_initial reset_sync_stats send_who_is_master_request send_packet send_to
  become_initial-initial env s = ground arith

  become_master-master :
      (env : Env) (id : ℕ) (s : Server Clk)
      → assign_timeline_id env.draws ≡ some id
      → Inv ops s
      → Ensures ops (λ s'. s'.state ≡ master) (become_master ops env s)
  unfolding become_master
  become_master-master env id s d v = ground (
    arith,
    take_mastership-master ops env s,
    take_mastership-master ops env (create_timeline ops env id s),
  )

  weaken :
      (P Q : Server Clk → Type 0) (o : Outcome Clk)
      → ((s : Server Clk) → P s → Q s)
      → Ensures ops P o
      → Ensures ops Q o
  weaken P Q (done s b) h k = h s k
  weaken P Q assert_failed h k = k
  weaken P Q still_drawing h k = k

  enter_networkless-IsNetworkless :
      (w : Wakeup) (id : ℕ) (s : Server Clk)
      → assign_timeline_id w.env.draws ≡ some id
      → Inv ops s
      → Ensures ops IsNetworkless (enter_networkless ops w s)
  unfolding enter_networkless
  enter_networkless-IsNetworkless w id s d v =
      let first =
        weaken (λ s'. s'.state ≡ initial) IsNetworkless (become_initial ops w.env s) (λ s' e. inl e)
          (become_initial-initial w.env s) in
      let second =
        weaken (λ s'. s'.state ≡ master) IsNetworkless (become_master ops w.env s) (λ s' e. inr e)
          (become_master-master w.env id s d v) in
      ground (arith, first, second)

  -- The pass up to the test of the socket.
  dropped :
      (w : Wakeup) (s : Server Clk)
      → (s.bind_iface_dirty || (s.has_socket && should_auto_disable s)) ≡ true
      → (s.bind_iface_valid && not (should_auto_disable s)) ≡ false
      → let s2 = (drop_socket ops w (expire ops w s)).0 in
        ((drop_socket ops w (expire ops w s)).1 ≡ true)
        × ((not s2.has_socket && s2.bind_iface_valid && not (should_auto_disable s2)) ≡ false)
  unfolding drop_socket expire cleanup_socket should_auto_disable
  dropped w s h k = ground arith

  -- A pass that drops the socket, because the interface changed or because nobody needs the common
  -- time, and may not set up another, leaves the server in INITIAL or MASTER, if a valid timeline
  -- identifier is drawn and the server kept the invariant.
  pub iterate-IsNetworkless :
      (w : Wakeup) (id : ℕ) (s : Server Clk)
      → assign_timeline_id w.env.draws ≡ some id
      → Inv ops s
      → (s.bind_iface_dirty || (s.has_socket && should_auto_disable s)) ≡ true
      → (s.bind_iface_valid && not (should_auto_disable s)) ≡ false
      → Ensures ops IsNetworkless (iterate ops w s)
  unfolding iterate
  iterate-IsNetworkless w id s d v drop stay =
      let (e, e') = dropped w s drop stay in
      let s2 = (drop_socket ops w (expire ops w s)).0 in
      let (v1, _) = expire-Inv ops w id d s v in
      let (v2, _) = drop_socket-Inv ops w id d (expire ops w s) v1 in
      ground (arith, enter_networkless-IsNetworkless w id s2 d v2)

  -- A client that has not yet had its first measurements and loses its network becomes master of a
  -- timeline of which it knows no time.
  pub unsynced_client_becomes_master :
      (w : Wakeup) (s : Server Clk)
      → s.state ≡ client
      → s.timeline_id ≢ k_invalid_timeline_id
      → is_valid s.clock ≡ false
      → Ensures ops
          (λ s'.
            (s'.state ≡ master) × (s'.timeline_id ≡ s.timeline_id) × (is_valid s'.clock ≡ false))
          (enter_networkless ops w s)
  unfolding enter_networkless become_master take_mastership reset_sync_stats
      send_master_announcement send_packet send_to
  unsynced_client_becomes_master w s c t k = ground (arith, is_valid-reset_frequency true s.clock)

  -- A master with no common time answers no sync request on its timeline: the method fails, and
  -- nothing is sent.
  pub untimed_master_is_mute :
      (env : Env) (client_tx : ℕ) (src : Endpoint) (s : Server Clk)
      → s.state ≡ master
      → is_valid s.clock ≡ false
      → handle_sync_request ops env s.timeline_id client_tx src s
        ≡ done (set_force_low_priority false s) false
  unfolding handle_sync_request set_force_low_priority
  untimed_master_is_mute env client_tx src s m k =
      ground (arith, local_to_common_invalid s.clock s.last_packet_rx_local_time k)

  -- A server with no socket, on a valid interface, that becomes idle while the automatic
  -- disabling is on does not enter the network-less mode: the pass leaves its state and its
  -- timeline, CLIENT included.
  pub idle_without_socket_stays :
      (w : Wakeup) (s : Server Clk)
      → s.has_socket ≡ false
      → s.bind_iface_dirty ≡ false
      → should_auto_disable s ≡ true
      → Ensures ops
          (λ s'. (s'.state ≡ s.state) × (s'.timeline_id ≡ s.timeline_id) × (s'.has_socket ≡ false))
          (iterate ops w s)
  unfolding iterate drop_socket expire should_auto_disable handle_timeout receive
  idle_without_socket_stays w s h d a = ground arith
