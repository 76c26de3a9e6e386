-- ===== src/CommonTime/Server/Safety.antt =====
-- The handlers and the loop of libs/common_time/common_time_server.cpp keep the invariant.
use f2ut_platform_frameworks.Prelude.{
  Bool, Bool-cases, arith, false, inl, inr, true, ℕ, ◌%◌, ◌+◌, ◌^◌, ◌≡◌, ◌≢◌,
}
use f2ut_platform_frameworks.CommonTime.ClockOps.{ClockOps}
use f2ut_platform_frameworks.CommonTime.Packets.{
  Body, Packet, k_invalid_timeline_id, master_announcement, who_is_master_response,
}
use f2ut_platform_frameworks.CommonTime.RttLog.{log_rx}
use f2ut_platform_frameworks.CommonTime.Server.{
  Endpoint, Env, Server, done, is_client, notify_clock_sync, set_force_low_priority,
}
use f2ut_platform_frameworks.CommonTime.Server.Handlers.{
  after_discipline, drop_sync_response, handle_master_announcement, handle_sync_request,
  handle_sync_response, handle_who_is_master_request, handle_who_is_master_response, reply,
  use_sync_response, who_is_master_response_packet,
}
use f2ut_platform_frameworks.CommonTime.Server.Invariant.{
  Ensures, Ensures-if, Inv, become_client-Inv, become_initial-Inv, become_ronin-Inv,
}
use f2ut_platform_frameworks.CommonTime.Server.Transitions.{
  become_initial, become_wait_for_election,
}

-- A peer that claims to be master names a valid timeline.
abbrev pub NamesTimeline : Body → ℕ → Type 0
NamesTimeline (who_is_master_response _ _) timeline = timeline ≢ k_invalid_timeline_id
NamesTimeline (master_announcement _ _) timeline = timeline ≢ k_invalid_timeline_id
NamesTimeline _ timeline = Unit {0}

module _ (ops : ClockOps) (env : Env) where
  open ops use {Clk, is_valid, local_to_common, push_discipline_event}

  reply-Inv :
      (to : Endpoint) (p : Packet) (s : Server Clk)
      → Inv ops s
      → Ensures ops (Inv ops) (reply env to p s)
  unfolding reply
  reply-Inv to p s v = ground arith

  pub handle_who_is_master_request-Inv :
      (timeline id prio : ℕ) (src : Endpoint) (s : Server Clk)
      → Inv ops s
      → Ensures ops (Inv ops) (handle_who_is_master_request ops env timeline id prio src s)
  unfolding handle_who_is_master_request become_wait_for_election
  handle_who_is_master_request-Inv timeline id prio src s v =
      ground (arith, reply-Inv src (who_is_master_response_packet s) s v)

  pub handle_who_is_master_response-Inv :
      (timeline id prio : ℕ) (src : Endpoint) (s : Server Clk)
      → Inv ops s
      → s.has_socket ≡ true
      → timeline ≢ k_invalid_timeline_id
      → Ensures ops (Inv ops) (handle_who_is_master_response ops env timeline id prio src s)
  unfolding handle_who_is_master_response
  handle_who_is_master_response-Inv timeline id prio src s v h k =
      ground (arith, become_client-Inv ops env src id prio timeline s v h k)

  pub handle_master_announcement-Inv :
      (timeline id prio : ℕ) (src : Endpoint) (s : Server Clk)
      → Inv ops s
      → s.has_socket ≡ true
      → timeline ≢ k_invalid_timeline_id
      → Ensures ops (Inv ops) (handle_master_announcement ops env timeline id prio src s)
  unfolding handle_master_announcement
  handle_master_announcement-Inv timeline id prio src s v h k =
      ground (arith, become_client-Inv ops env src id prio timeline s v h k)

  pub set_force_low_priority-Inv :
      (b : Bool) (s : Server Clk) → Inv ops s → Inv ops (set_force_low_priority b s)
  unfolding set_force_low_priority
  set_force_low_priority-Inv b s v = ground arith

  pub handle_sync_request-Inv :
      (timeline tx : ℕ) (src : Endpoint) (s : Server Clk)
      → Inv ops s
      → Ensures ops (Inv ops) (handle_sync_request ops env timeline tx src s)
  unfolding handle_sync_request reply
  handle_sync_request-Inv timeline tx src s v = ground (arith, set_force_low_priority-Inv false s v)

  drop_sync_response-Inv :
      (s : Server Clk) → Inv ops s → Ensures ops (Inv ops) (drop_sync_response ops env s)
  unfolding drop_sync_response
  drop_sync_response-Inv s v =
      Ensures-if ops (Inv ops) _ (become_initial ops env _) (done _ env.unset)
        (become_initial-Inv ops env _)
        (record { endpoint = v.endpoint; basis = v.basis; time = v.time; timeline = v.timeline })

  after_discipline-Inv :
      (ok : Bool) (s : Server Clk)
      → Inv ops s
      → Ensures ops (Inv ops) (after_discipline ops env ok s)
  unfolding after_discipline notify_clock_sync
  after_discipline-Inv true s v = ground arith
  after_discipline-Inv false s v = become_initial-Inv ops env _

  use_sync_response-Inv :
      (tx mrx mtx : ℕ) (s : Server Clk)
      → Inv ops s
      → is_client s.state ≡ true
      → Ensures ops (Inv ops) (use_sync_response ops env tx mrx mtx s)
  unfolding use_sync_response
  use_sync_response-Inv tx mrx mtx s v h =
      Ensures-if ops (Inv ops) _ _ _
        (after_discipline-Inv _ _ (record {
          endpoint = v.endpoint;
          basis = ground arith;
          time = ground arith;
          timeline = v.timeline;
        }))
        (drop_sync_response-Inv s v)

  -- The bookkeeping of a sync response from the current master.
  abbrev after_sync_response : ℕ → Server Clk → Server Clk
  after_sync_response client_tx s = record s {
    client_sync_request_pending = false;
    client_sync_request_timeouts = 0;
    client_packet_rtt_log = log_rx client_tx s.last_packet_rx_local_time s.client_packet_rtt_log;
    client_sync_resps_rxed_from_cur_master =
        (s.client_sync_resps_rxed_from_cur_master + 1) % 2 ^ 32;
  }

  after_sync_response-Inv :
      (tx : ℕ) (s : Server Clk) → Inv ops s → Inv ops (after_sync_response tx s)
  after_sync_response-Inv tx s v = ground arith

  pub handle_sync_response-Inv :
      (tx mrx mtx nak : ℕ) (src : Endpoint) (s : Server Clk)
      → Inv ops s
      → s.has_socket ≡ true
      → Ensures ops (Inv ops) (handle_sync_response ops env tx mrx mtx nak src s)
  unfolding handle_sync_response
  handle_sync_response-Inv tx mrx mtx nak src s v h = elim (Bool-cases (is_client s.state)) [
    | inl c ↦ ground (
      arith,
      become_ronin-Inv ops env s v h,
      use_sync_response-Inv tx mrx mtx (after_sync_response tx s) (after_sync_response-Inv tx s v)
          c,
    )
    | inr c ↦ rw c v
  ]
