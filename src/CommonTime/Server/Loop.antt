-- ===== src/CommonTime/Server/Loop.antt =====
-- One pass of the loop of CommonTimeServer::runStateMachine_l, and setupSocket_l, of
-- libs/common_time/common_time_server.cpp. A pass in which `poll` fails or the thread is asked to exit ends the loop, and is
-- left out.
use f2ut_platform_frameworks.Prelude.{
  Bool, List, Option, false, if◌then◌else◌, none, not, some, true, ℕ, ◌&&◌, ◌/◌, ◌==◌, ◌^◌, ◌||◌,
}
use f2ut_platform_frameworks.CommonTime.ClockOps.{ClockOps}
use f2ut_platform_frameworks.CommonTime.Packets.{k_invalid_timeline_id}
use f2ut_platform_frameworks.CommonTime.Server.{
  Endpoint, Env, Outcome, Server, cleanup_socket, done, inet, is_initial, is_master,
  set_force_low_priority, should_auto_disable,
}
use f2ut_platform_frameworks.CommonTime.Server.Handlers.{handle_packet}
use f2ut_platform_frameworks.CommonTime.Server.Timeouts.{handle_timeout}
use f2ut_platform_frameworks.CommonTime.Server.Transitions.{
  become_initial, become_master, become_ronin,
}

-- What `poll` and the calls of one pass return: `timed_out` is a return of 0 with the current
-- timeout due, `hardware_address` the device identifier if every call of setupSocket_l succeeds, and
-- `datagram` what `recvfrom` returns when the socket has something to say.
pub record Wakeup : Type 0 where
  pub env : Env
  pub wakeup_time : ℕ
  pub timed_out : Bool
  pub socket_ready : Bool
  pub hardware_address : Option ℕ
  pub datagram : Option (List ℕ)
  pub src : Endpoint

-- kSetupRetryTimeoutMs
abbrev pub k_setup_retry_timeout_ms : ℕ
k_setup_retry_timeout_ms = 30000

-- Only IPv4 is supported, and only a multicast address or the broadcast address.
unfoldable pub usable_election_ep : Endpoint → Bool
usable_election_ep (inet address _) = address / 2 ^ 28 == 0xe || address == 0xffffffff
usable_election_ep _ = false

module _ {Clk : Type 0} where
  unfoldable pub setup_socket : Option ℕ → Server Clk → Server Clk × Bool
  setup_socket hardware_address s =
      let s' = cleanup_socket s in
      if not (s.bind_iface_valid && usable_election_ep s.master_election_ep)
      then (s', false)
      else elim hardware_address [
        | none ↦ (s', false)
        | some id ↦ (record s' { has_socket = true; device_id = id }, true)
      ]

module _ (ops : ClockOps) (w : Wakeup) where
  open ops use {Clk}

  -- The socket could be set up: the server joins a network at low priority.
  unfoldable pub joined_network : Server Clk → Outcome Clk
  joined_network s =
      let s' = set_force_low_priority true s in
      if is_initial s'.state then become_initial ops w.env s' else become_ronin ops w.env s'

  unfoldable pub try_setup : Server Clk → Outcome Clk
  try_setup s =
      let (s', ok) = setup_socket w.hardware_address s in
      if ok
      then joined_network s'
      else done (record s' { cur_timeout = some k_setup_retry_timeout_ms }) true

  -- The socket is gone, and is not to be set up again.
  unfoldable pub enter_networkless : Server Clk → Outcome Clk
  enter_networkless s =
      if is_initial s.state || is_master s.state
      then done s true
      else if s.timeline_id == k_invalid_timeline_id
      then become_initial ops w.env s
      else become_master ops w.env s

  unfoldable pub receive : Server Clk → Outcome Clk
  receive s =
      if s.has_socket && w.socket_ready
      then handle_packet ops w.env w.datagram w.src
          (record s { last_packet_rx_local_time = w.wakeup_time })
      else done s true

  unfoldable pub drop_socket : Server Clk → Server Clk × Bool
  drop_socket s =
      if s.bind_iface_dirty || (s.has_socket && should_auto_disable s)
      then (record (cleanup_socket s) { bind_iface_dirty = false }, true)
      else (s, false)

  -- A timeout that is due is cleared before it is handled.
  unfoldable pub expire : Server Clk → Server Clk
  expire s = if w.timed_out then record s { cur_timeout = none } else s

  unfoldable pub iterate : Server Clk → Outcome Clk
  iterate s =
      let (s2, dropped) = drop_socket (expire s) in
      if not s2.has_socket && s2.bind_iface_valid && not (should_auto_disable s2)
      then try_setup s2
      else if dropped
      then enter_networkless s2
      else if w.timed_out
      then handle_timeout ops w.env s2
      else receive s2
