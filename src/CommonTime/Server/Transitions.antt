-- ===== src/CommonTime/Server/Transitions.antt =====
-- The sends and the changes of state of libs/common_time/common_time_server.cpp: sendWhoIsMasterRequest,
-- sendSyncRequest, sendMasterAnnouncement, becomeClient, becomeMaster, becomeRonin,
-- becomeWaitForElection and becomeInitial.
use f2ut_platform_frameworks.Prelude.{
  Bool, List, Option, [], false, if◌then◌else◌, none, not, some, true, ℕ, ◌%◌, ◌&&◌, ◌+◌, ◌==◌, ◌^◌,
  ◌||◌, ◌∷◌,
}
use f2ut_platform_frameworks.CommonTime.ClockOps.{ClockOps}
use f2ut_platform_frameworks.CommonTime.Packets.{
  Packet, init_header, k_invalid_timeline_id, master_announcement, serialize_packet, sync_request,
  who_is_master_request,
}
use f2ut_platform_frameworks.CommonTime.RttLog.{log_tx}
use f2ut_platform_frameworks.CommonTime.Server.{
  Endpoint, Env, Outcome, Server, assert_failed, client, done, effective_priority, initial,
  is_client, is_initial, is_master, is_ronin, master, no_endpoint, notify_clock_sync,
  notify_clock_sync_loss, reset_sync_stats, ronin, set_force_low_priority, still_drawing,
  wait_for_election,
}

-- Every send uses a buffer of 256 bytes.
abbrev pub buf_size : ℕ
buf_size = 256

-- kInitial_WhoIsMasterTimeoutMs, kRonin_WhoIsMasterTimeoutMs, kWaitForElection_TimeoutMs
abbrev pub k_initial_who_is_master_timeout_ms : ℕ
k_initial_who_is_master_timeout_ms = 500

abbrev pub k_ronin_who_is_master_timeout_ms : ℕ
k_ronin_who_is_master_timeout_ms = 500

abbrev pub k_wait_for_election_timeout_ms : ℕ
k_wait_for_election_timeout_ms = 12500

-- assignTimelineID: draw until the value is a valid identifier.
unfoldable pub assign_timeline_id : List ℕ → Option ℕ
assign_timeline_id [] = none
assign_timeline_id (id ∷ rest) =
    if id == k_invalid_timeline_id then assign_timeline_id rest else some id

module _ {Clk : Type 0} where
  -- `sendto`, where a failure is only logged: the datagram is on the network or lost.
  unfoldable pub send_to : Env → Endpoint → List ℕ → Server Clk → Server Clk
  send_to env to bytes s =
      if env.send_works then record s { outbox = (to, bytes) ∷ s.outbox } else s

  -- Serialise a packet and send it; the result says whether it could be serialised.
  unfoldable pub send_packet : Env → Endpoint → Packet → Server Clk → Server Clk × Bool
  send_packet env to p s = elim (serialize_packet buf_size p) [
    | none ↦ (s, false)
    | some bytes ↦ (send_to env to bytes s, true)
  ]

  unfoldable pub who_is_master_request_packet : Server Clk → Packet
  who_is_master_request_packet s = record {
    header = init_header 1 k_invalid_timeline_id s.sync_group_id;
    body = who_is_master_request s.device_id (effective_priority s);
  }

  unfoldable pub sync_request_packet : Env → Server Clk → Packet
  sync_request_packet env s = record {
    header = init_header 3 s.timeline_id s.sync_group_id;
    body = sync_request env.tx_time;
  }

  unfoldable pub master_announcement_packet : Server Clk → Packet
  master_announcement_packet s = record {
    header = init_header 5 s.timeline_id s.sync_group_id;
    body = master_announcement s.device_id (effective_priority s);
  }

  -- Both of its assertions are kept: the state on entry, and INITIAL if there is no socket.
  unfoldable pub send_who_is_master_request : Env → Server Clk → Outcome Clk
  send_who_is_master_request env s =
      if not (is_initial s.state || is_ronin s.state)
      then assert_failed
      else if not s.has_socket
      then (if is_initial s.state then done s true else assert_failed)
      else (let (s', ret) =
            send_packet env s.master_election_ep (who_is_master_request_packet s) s in
          done
            (record s' {
              cur_timeout =
                  if is_initial s.state
                  then some k_initial_who_is_master_timeout_ms
                  else some k_ronin_who_is_master_timeout_ms;
            })
            ret)

  unfoldable pub send_sync_request : Env → Server Clk → Outcome Clk
  send_sync_request env s =
      if not (is_client s.state && s.has_socket)
      then assert_failed
      else (let s1 = record s {
        client_first_sync_tx =
            if s.client_first_sync_tx == 0 then env.tx_time else s.client_first_sync_tx;
        client_packet_rtt_log = log_tx env.tx_time s.client_packet_rtt_log;
      } in
          let (s2, ret) = send_packet env s.master_ep (sync_request_packet env s) s1 in
          done
            (record s2 {
              client_syncs_sent_to_cur_master = (s.client_syncs_sent_to_cur_master + 1) % 2 ^ 32;
              cur_timeout = some s.sync_request_interval_ms;
              client_sync_request_pending = true;
            })
            ret)

  unfoldable pub send_master_announcement : Env → Server Clk → Outcome Clk
  send_master_announcement env s =
      if not (is_master s.state)
      then assert_failed
      else if not s.has_socket
      then done (record s { cur_timeout = none }) true
      else (let (s', ret) = send_packet env s.master_election_ep (master_announcement_packet s) s in
          done (record s' { cur_timeout = some s.master_announce_interval_ms }) ret)

module _ (ops : ClockOps) (env : Env) where
  open ops use {Clk, is_valid, set_basis, reset}

  unfoldable pub join_timeline : ℕ → Server Clk → Server Clk
  join_timeline timeline s =
      if s.timeline_id == timeline
      then record s { clock = reset false true s.clock }
      else notify_clock_sync_loss
          (record s { timeline_id = timeline; clock = reset true true s.clock })

  -- becomeClient, without the sleep before its request.
  unfoldable pub become_client : Endpoint → ℕ → ℕ → ℕ → Server Clk → Outcome Clk
  become_client ep id prio timeline s =
      let s1 = record (join_timeline timeline s) { master_ep = ep; master_ep_valid = true } in
      let s2 = record (set_force_low_priority false s1) {
        client_master_device_id = id;
        client_master_device_priority = prio;
      } in
      send_sync_request env (record (reset_sync_stats s2) { state = client })

  -- A new timeline starts at common time 0.
  unfoldable pub create_timeline : ℕ → Server Clk → Server Clk
  create_timeline id s =
      notify_clock_sync (record s { clock = set_basis env.now 0 s.clock; timeline_id = id })

  unfoldable pub take_mastership : Server Clk → Outcome Clk
  take_mastership s =
      let s1 = record s {
        master_ep = no_endpoint;
        master_ep_valid = false;
        client_master_device_priority = effective_priority s;
        client_master_device_id = s.device_id;
        clock = reset false true s.clock;
      } in
      send_master_announcement env (record (reset_sync_stats s1) { state = master })

  unfoldable pub become_master : Server Clk → Outcome Clk
  become_master s =
      if s.timeline_id == k_invalid_timeline_id
      then (if is_valid s.clock then assert_failed else elim (assign_timeline_id env.draws) [
        | none ↦ still_drawing
        | some id ↦ take_mastership (create_timeline id s)
      ])
      else take_mastership s

  unfoldable pub become_initial : Server Clk → Outcome Clk
  become_initial s =
      let s1 = record s {
        state = initial;
        clock = reset true true s.clock;
        cur_timeout = none;
        master_ep = no_endpoint;
        master_ep_valid = false;
        last_packet_rx_local_time = 0;
        timeline_id = k_invalid_timeline_id;
        clock_synced = false;
        initial_who_is_master_request_timeouts = 0;
        client_master_device_id = 0;
        client_master_device_priority = 0;
        ronin_who_is_master_request_timeouts = 0;
      } in
      send_who_is_master_request env (reset_sync_stats s1)

  unfoldable pub become_ronin : Server Clk → Outcome Clk
  become_ronin s =
      let s1 = record s { master_ep = no_endpoint; master_ep_valid = false } in
      if is_valid s.clock
      then send_who_is_master_request env
          (record s1 { ronin_who_is_master_request_timeouts = 0; state = ronin })
      else become_initial s1

  unfoldable pub become_wait_for_election : Server Clk → Outcome Clk
  become_wait_for_election s =
      done
        (record s { state = wait_for_election; cur_timeout = some k_wait_for_election_timeout_ms })
        true
