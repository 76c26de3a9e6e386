-- ===== src/CommonTime/Server.antt =====
-- libs/common_time/common_time_server.h and common_time_server.cpp: the state of the server, and
-- what its methods return. The work thread holds the lock throughout, so a method is a function on
-- the state.
pub mod Transitions
pub mod Timeouts
pub mod Handlers
pub mod Loop
pub mod Invariant
pub mod Safety
pub mod Run
pub mod Election
pub mod Silence
pub mod Networkless
use f2ut_platform_frameworks.Prelude.{
  Bool, List, Option, false, if◌then◌else◌, ltb, not, true, ℕ, ◌%◌, ◌&&◌, ◌+◌, ◌==◌, ◌||◌, ◌∷◌,
}
use f2ut_platform_frameworks.CommonTime.Packets.{k_invalid_timeline_id}
use f2ut_platform_frameworks.CommonTime.RttLog.{RttLog, reset_log}

-- ICommonClock::State
pub data SyncState : Type 0 where
  initial client master ronin wait_for_election : SyncState

-- A socket address: IPv4, IPv6, or another family.
pub data Endpoint : Type 0 where
  inet : (address port : ℕ) → Endpoint
  inet6 : (address port : ℕ) → Endpoint
  unknown_family : ℕ → Endpoint

-- memset to zero
abbrev pub no_endpoint : Endpoint
no_endpoint = unknown_family 0

unfoldable pub sockaddr_match : Endpoint → Endpoint → Bool → Bool
sockaddr_match (inet a p) (inet b q) address_only = a == b && (address_only || p == q)
sockaddr_match (inet6 a p) (inet6 b q) address_only = a == b && (address_only || p == q)
sockaddr_match _ _ address_only = false

-- CommonTimeServer. `has_socket` is `mSocket >= 0`. `cur_timeout` is the last value given to
-- `mCurTimeout.setTimeout`, and `none` for kInfiniteTimeout. `outbox` holds the datagrams sent and
-- `notified` the timelines told to the common clock service, both newest first.
pub record Server (Clk : Type 0) : Type 0 where
  pub state : SyncState
  pub clock : Clk
  pub cur_timeout : Option ℕ
  pub has_socket : Bool
  pub last_packet_rx_local_time : ℕ
  pub timeline_id : ℕ
  pub clock_synced : Bool
  pub force_low_priority : Bool
  pub common_clock_has_clients : Bool
  pub master_election_ep : Endpoint
  pub bind_iface_valid : Bool
  pub bind_iface_dirty : Bool
  pub master_ep : Endpoint
  pub master_ep_valid : Bool
  pub device_id : ℕ
  pub sync_group_id : ℕ
  pub master_priority : ℕ
  pub master_announce_interval_ms : ℕ
  pub sync_request_interval_ms : ℕ
  pub panic_threshold_usec : ℕ
  pub auto_disable : Bool
  pub initial_who_is_master_request_timeouts : ℕ
  pub client_master_device_id : ℕ
  pub client_master_device_priority : ℕ
  pub client_sync_request_pending : Bool
  pub client_sync_request_timeouts : ℕ
  pub client_syncs_sent_to_cur_master : ℕ
  pub client_sync_resps_rxed_from_cur_master : ℕ
  pub client_expired_sync_resps_rxed_from_cur_master : ℕ
  pub client_first_sync_tx : ℕ
  pub client_last_good_sync_rx : ℕ
  pub client_packet_rtt_log : RttLog
  pub ronin_who_is_master_request_timeouts : ℕ
  pub outbox : List (Endpoint × List ℕ)
  pub notified : List ℕ

-- What the world answers during one call: the clock read by the method itself and the one read for
-- a sync request, whether `sendto` succeeds, the values drawn for a timeline identifier, and what an
-- unset local variable happens to hold.
pub record Env : Type 0 where
  pub now : ℕ
  pub tx_time : ℕ
  pub send_works : Bool
  pub draws : List ℕ
  pub unset : Bool

-- A method returns the state and its result, stops at a failed assertion, or has not found a
-- timeline identifier in the values drawn.
pub data Outcome (Clk : Type 0) : Type 0 where
  done : Server Clk → Bool → Outcome Clk
  assert_failed : Outcome Clk
  still_drawing : Outcome Clk

abbrev pub is_initial : SyncState → Bool
is_initial initial = true
is_initial _ = false

abbrev pub is_client : SyncState → Bool
is_client client = true
is_client _ = false

abbrev pub is_master : SyncState → Bool
is_master master = true
is_master _ = false

abbrev pub is_ronin : SyncState → Bool
is_ronin ronin = true
is_ronin _ = false

abbrev pub is_wait_for_election : SyncState → Bool
is_wait_for_election wait_for_election = true
is_wait_for_election _ = false

-- Returns true if the first device wins.
unfoldable pub arbitrate_master : ℕ → ℕ → ℕ → ℕ → Bool
arbitrate_master id1 prio1 id2 prio2 = ltb prio2 prio1 || (prio1 == prio2 && ltb id2 id1)

module _ {Clk : Type 0} where
  -- (mMasterPriority & 0x7F) | (mForceLowPriority ? 0x00 : 0x80)
  unfoldable pub effective_priority : Server Clk → ℕ
  effective_priority s = s.master_priority % 128 + (if s.force_low_priority then 0 else 128)

  unfoldable pub set_force_low_priority : Bool → Server Clk → Server Clk
  unfolding effective_priority
  set_force_low_priority val s =
      let s' = record s { force_low_priority = val } in
      if is_master s.state
      then record s' { client_master_device_priority = effective_priority s' }
      else s'

  unfoldable pub should_auto_disable : Server Clk → Bool
  should_auto_disable s = s.auto_disable && not s.common_clock_has_clients

  unfoldable pub reset_sync_stats : Server Clk → Server Clk
  reset_sync_stats s = record s {
    client_sync_request_pending = false;
    client_sync_request_timeouts = 0;
    client_syncs_sent_to_cur_master = 0;
    client_sync_resps_rxed_from_cur_master = 0;
    client_expired_sync_resps_rxed_from_cur_master = 0;
    client_first_sync_tx = 0;
    client_last_good_sync_rx = 0;
    client_packet_rtt_log = reset_log s.client_packet_rtt_log;
  }

  unfoldable pub cleanup_socket : Server Clk → Server Clk
  cleanup_socket s = record s { has_socket = false }

  unfoldable pub notify_clock_sync : Server Clk → Server Clk
  notify_clock_sync s =
      if s.clock_synced
      then s
      else record s { clock_synced = true; notified = s.timeline_id ∷ s.notified }

  unfoldable pub notify_clock_sync_loss : Server Clk → Server Clk
  notify_clock_sync_loss s =
      if s.clock_synced
      then record s { clock_synced = false; notified = k_invalid_timeline_id ∷ s.notified }
      else s
