-- ===== src/CommonTime/Server/Timeouts.antt =====
-- handleTimeout and its five cases, of libs/common_time/common_time_server.cpp.
use f2ut_platform_frameworks.Prelude.{Bool, false, if◌then◌else◌, ltb, not, true, ℕ, ◌+◌, ◌==◌}
use f2ut_platform_frameworks.CommonTime.ClockOps.{ClockOps}
use f2ut_platform_frameworks.CommonTime.Server.{
  Env, Outcome, Server, SyncState, client, done, initial, master, ronin, wait_for_election,
}
use f2ut_platform_frameworks.CommonTime.Server.Transitions.{
  become_initial, become_master, become_ronin, send_master_announcement, send_sync_request,
  send_who_is_master_request,
}
use f2ut_platform_frameworks.Prelude.Words.{leq64, sub64}

-- kInitial_NumWhoIsMasterRetries, kRonin_NumWhoIsMasterRetries, kClient_NumSyncRequestRetries
abbrev pub k_initial_num_who_is_master_retries : ℕ
k_initial_num_who_is_master_retries = 6

abbrev pub k_ronin_num_who_is_master_retries : ℕ
k_ronin_num_who_is_master_retries = 20

abbrev pub k_client_num_sync_request_retries : ℕ
k_client_num_sync_request_retries = 10

abbrev pub k_no_good_data_panic_threshold_usec : ℕ
k_no_good_data_panic_threshold_usec = 600000000

module _ (ops : ClockOps) (env : Env) where
  open ops use {Clk, local_duration_to_common_duration}

  unfoldable pub should_panic_not_getting_good_data : Server Clk → Bool
  should_panic_not_getting_good_data s =
      if s.client_first_sync_tx == 0
      then false
      else (let since =
            if s.client_last_good_sync_rx == 0
            then s.client_first_sync_tx
            else s.client_last_good_sync_rx in
          let delta_usec = local_duration_to_common_duration s.clock (sub64 env.now since) in
          leq64 k_no_good_data_panic_threshold_usec delta_usec)

  unfoldable pub handle_timeout_initial : Server Clk → Outcome Clk
  handle_timeout_initial s =
      let timeouts = s.initial_who_is_master_request_timeouts + 1 in
      let s' = record s { initial_who_is_master_request_timeouts = timeouts } in
      if timeouts == k_initial_num_who_is_master_retries
      then become_master ops env s'
      else send_who_is_master_request env s'

  -- A sync request had no reply.
  abbrev pub missed_sync : Server Clk → Server Clk
  missed_sync s = record s {
    client_sync_request_pending = false;
    client_sync_request_timeouts = s.client_sync_request_timeouts + 1;
  }

  unfoldable pub handle_timeout_client : Server Clk → Outcome Clk
  handle_timeout_client s =
      if should_panic_not_getting_good_data s
      then become_initial ops env s
      else if s.client_sync_request_pending
      then (if ltb (missed_sync s).client_sync_request_timeouts k_client_num_sync_request_retries
          then send_sync_request env (missed_sync s)
          else become_ronin ops env (missed_sync s))
      else send_sync_request env s

  unfoldable pub handle_timeout_master : Server Clk → Outcome Clk
  handle_timeout_master s = send_master_announcement env s

  unfoldable pub handle_timeout_ronin : Server Clk → Outcome Clk
  handle_timeout_ronin s =
      let timeouts = s.ronin_who_is_master_request_timeouts + 1 in
      let s' = record s { ronin_who_is_master_request_timeouts = timeouts } in
      if timeouts == k_ronin_num_who_is_master_retries
      then become_master ops env s'
      else send_who_is_master_request env s'

  unfoldable pub handle_timeout_wait_for_election : Server Clk → Outcome Clk
  handle_timeout_wait_for_election s = become_ronin ops env s

  -- The switch on the state.
  unfoldable pub timeout_in : SyncState → Server Clk → Outcome Clk
  timeout_in initial s = handle_timeout_initial s
  timeout_in client s = handle_timeout_client s
  timeout_in master s = handle_timeout_master s
  timeout_in ronin s = handle_timeout_ronin s
  timeout_in wait_for_election s = handle_timeout_wait_for_election s

  unfoldable pub handle_timeout : Server Clk → Outcome Clk
  unfolding timeout_in
  handle_timeout s = if not s.has_socket then done s true else timeout_in s.state s
