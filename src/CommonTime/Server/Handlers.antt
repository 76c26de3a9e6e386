-- ===== src/CommonTime/Server/Handlers.antt =====
-- handlePacket and the handlers of the five packets, of libs/common_time/common_time_server.cpp.
use f2ut_platform_frameworks.Prelude.{
  Bool, List, Option, false, if◌then◌else◌, none, nonzero, not, some, true, ℕ, ◌%◌, ◌&&◌, ◌*◌, ◌+◌,
  ◌==◌, ◌^◌, ◌||◌, ◌∷◌,
}
use f2ut_platform_frameworks.CommonTime.ClockOps.{ClockOps}
use f2ut_platform_frameworks.CommonTime.Packets.{
  Body, Packet, deserialize_packet, init_header, k_invalid_timeline_id, master_announcement,
  serialize_packet, sync_request, sync_response, who_is_master_request, who_is_master_response,
}
use f2ut_platform_frameworks.CommonTime.RttLog.{log_rx}
use f2ut_platform_frameworks.CommonTime.Server.{
  Endpoint, Env, Outcome, Server, arbitrate_master, assert_failed, done, effective_priority,
  is_client, is_initial, is_master, is_ronin, is_wait_for_election, notify_clock_sync,
  notify_clock_sync_loss, set_force_low_priority, sockaddr_match,
}
use f2ut_platform_frameworks.CommonTime.Server.Timeouts.{should_panic_not_getting_good_data}
use f2ut_platform_frameworks.CommonTime.Server.Transitions.{
  become_client, become_initial, become_ronin, become_wait_for_election, buf_size,
}
use f2ut_platform_frameworks.Prelude.Words.{add64, half64, leq64, narrow64, sub64}

-- kRTTDiscardPanicThreshMultiplier
abbrev pub k_rtt_discard_panic_thresh_multiplier : ℕ
k_rtt_discard_panic_thresh_multiplier = 5

module _ {Clk : Type 0} where
  unfoldable pub who_is_master_response_packet : Server Clk → Packet
  who_is_master_response_packet s = record {
    header = init_header 2 s.timeline_id s.sync_group_id;
    body = who_is_master_response s.device_id (effective_priority s);
  }

  unfoldable pub sync_response_packet : Server Clk → Body → Packet
  sync_response_packet s b = record {
    header = init_header 4 s.timeline_id s.sync_group_id;
    body = b;
  }

  -- A reply to the sender; here a failing `sendto` is an error.
  unfoldable pub reply : Env → Endpoint → Packet → Server Clk → Outcome Clk
  reply env to p s = elim (serialize_packet buf_size p) [
    | none ↦ done s false
    | some bytes ↦
        if env.send_works
        then done (record s { outbox = (to, bytes) ∷ s.outbox }) true
        else done s false
  ]

module _ (ops : ClockOps) (env : Env) where
  open ops use {Clk, local_to_common, local_duration_to_common_duration, push_discipline_event}

  unfoldable pub handle_who_is_master_request : ℕ → ℕ → ℕ → Endpoint → Server Clk → Outcome Clk
  handle_who_is_master_request timeline id prio src s =
      if id == s.device_id
      then done s true
      else if is_master s.state
      then (if not (timeline == k_invalid_timeline_id) && not (timeline == s.timeline_id)
          then done s true
          else reply env src (who_is_master_response_packet s) s)
      else if is_ronin s.state
      then (if not (timeline == s.timeline_id)
          then done s true
          else if arbitrate_master id prio s.device_id (effective_priority s)
          then become_wait_for_election ops env s
          else done s true)
      else if is_initial s.state
      then (if timeline == k_invalid_timeline_id
            && arbitrate_master id prio s.device_id (effective_priority s)
          then done (record s { initial_who_is_master_request_timeouts = 0 }) true
          else done s true)
      else done s true

  unfoldable pub handle_who_is_master_response : ℕ → ℕ → ℕ → Endpoint → Server Clk → Outcome Clk
  handle_who_is_master_response timeline id prio src s =
      if id == s.device_id
      then done s true
      else if is_initial s.state || is_ronin s.state
      then become_client ops env src id prio timeline s
      else if is_client s.state
      then (if arbitrate_master id prio s.client_master_device_id s.client_master_device_priority
          then become_client ops env src id prio timeline s
          else done s true)
      else done s true

  unfoldable pub handle_sync_request : ℕ → ℕ → Endpoint → Server Clk → Outcome Clk
  handle_sync_request timeline client_tx src s =
      if is_master s.state && s.timeline_id == timeline
      then (let s' = set_force_low_priority false s in
          elim (local_to_common s'.clock s'.last_packet_rx_local_time) [
            | none ↦ done s' false
            | some rx ↦ elim (local_to_common s'.clock env.now) [
              | none ↦ done s' false
              | some tx ↦
                  reply env src (sync_response_packet s (sync_response client_tx rx tx 0)) s'
            ]
          ])
      else reply env src (sync_response_packet s (sync_response 0 0 0 1)) s

  -- A sync response that took too long; the result is a variable that this path never sets.
  unfoldable pub drop_sync_response : Server Clk → Outcome Clk
  drop_sync_response s =
      let s1 = record s {
        client_expired_sync_resps_rxed_from_cur_master =
            (s.client_expired_sync_resps_rxed_from_cur_master + 1) % 2 ^ 32;
      } in
      if should_panic_not_getting_good_data ops env s1
      then become_initial ops env s1
      else done (record s1 { cur_timeout = some s.sync_request_interval_ms }) env.unset

  -- After pushDisciplineEvent, by its result.
  unfoldable pub after_discipline : Bool → Server Clk → Outcome Clk
  after_discipline ok s =
      if ok
      then done (record (notify_clock_sync s) { cur_timeout = some s.sync_request_interval_ms })
          true
      else become_initial ops env (notify_clock_sync_loss s)

  -- The measurement of a sync response that is not the first one.
  unfoldable pub use_sync_response : ℕ → ℕ → ℕ → Server Clk → Outcome Clk
  use_sync_response client_tx master_rx master_tx s =
      let client_rx = s.last_packet_rx_local_time in
      let rtt_common =
        narrow64 (local_duration_to_common_duration s.clock (sub64 client_rx client_tx)) in
      let pushed =
        push_discipline_event (half64 (add64 client_tx client_rx))
          (half64 (add64 master_tx master_rx)) rtt_common s.clock in
      if leq64 rtt_common (s.panic_threshold_usec * k_rtt_discard_panic_thresh_multiplier)
      then after_discipline pushed.0
          (record s { clock = pushed.1; client_last_good_sync_rx = client_rx })
      else drop_sync_response s

  unfoldable pub handle_sync_response : ℕ → ℕ → ℕ → ℕ → Endpoint → Server Clk → Outcome Clk
  handle_sync_response client_tx master_rx master_tx nak src s =
      if not (is_client s.state)
      then done s true
      else if not s.master_ep_valid
      then assert_failed
      else if not (sockaddr_match src s.master_ep true)
      then done s true
      else if nonzero nak
      then become_ronin ops env s
      else (let s1 = record s {
        client_sync_request_pending = false;
        client_sync_request_timeouts = 0;
        client_packet_rtt_log =
            log_rx client_tx s.last_packet_rx_local_time s.client_packet_rtt_log;
        client_sync_resps_rxed_from_cur_master =
            (s.client_sync_resps_rxed_from_cur_master + 1) % 2 ^ 32;
      } in
          if s.client_sync_resps_rxed_from_cur_master == 0
          then done (record s1 { cur_timeout = some s.sync_request_interval_ms }) true
          else use_sync_response client_tx master_rx master_tx s1)

  unfoldable pub handle_master_announcement : ℕ → ℕ → ℕ → Endpoint → Server Clk → Outcome Clk
  handle_master_announcement timeline id prio src s =
      if id == s.device_id
      then done s true
      else if is_initial s.state || is_ronin s.state || is_wait_for_election s.state
      then become_client ops env src id prio timeline s
      else if is_client s.state
      then (if arbitrate_master id prio s.client_master_device_id s.client_master_device_priority
          then become_client ops env src id prio timeline s
          else done s true)
      else if is_master s.state
      then (if arbitrate_master id prio s.device_id (effective_priority s)
          then become_client ops env src id prio timeline s
          else done s true)
      else done s true

  unfoldable pub dispatch : Body → ℕ → Endpoint → Server Clk → Outcome Clk
  dispatch (who_is_master_request id prio) timeline src s =
      handle_who_is_master_request timeline id prio src s
  dispatch (who_is_master_response id prio) timeline src s =
      handle_who_is_master_response timeline id prio src s
  dispatch (sync_request tx) timeline src s = handle_sync_request timeline tx src s
  dispatch (sync_response tx mrx mtx nak) timeline src s = handle_sync_response tx mrx mtx nak src s
  dispatch (master_announcement id prio) timeline src s =
      handle_master_announcement timeline id prio src s

  -- handlePacket, given what `recvfrom` returned: `none` if it failed.
  unfoldable pub handle_packet : Option (List ℕ) → Endpoint → Server Clk → Outcome Clk
  handle_packet none src s = done s false
  handle_packet (some bytes) src s = elim (deserialize_packet bytes s.sync_group_id) [
    | none ↦ done s false
    | some p ↦ dispatch p.body p.timeline_id src s
  ]
