-- ===== src/CommonTime/Server/Election.antt =====
-- Master election of libs/common_time/common_time_server.cpp: arbitrateMaster, and competing masters.
use f2ut_platform_frameworks.Prelude.{
  Bool-cases, arith, false, inl, inr, not, true, ℕ, ◌≡◌, ◌≢◌, ◌⊎◌,
}
use f2ut_platform_frameworks.CommonTime.ClockOps.{ClockOps}
use f2ut_platform_frameworks.CommonTime.Server.{
  Endpoint, Env, Outcome, Server, SyncState, arbitrate_master, client, done, effective_priority,
  master, notify_clock_sync_loss, reset_sync_stats, set_force_low_priority,
}
use f2ut_platform_frameworks.CommonTime.Server.Handlers.{dispatch, handle_master_announcement}
use f2ut_platform_frameworks.CommonTime.Server.Invariant.{Ensures}
use f2ut_platform_frameworks.CommonTime.Server.Transitions.{
  become_client, join_timeline, master_announcement_packet, send_packet, send_sync_request, send_to,
}

-- Of two devices with distinct identifiers exactly one wins, no device wins against itself, and
-- a device that wins against a winner wins against the loser.
pub arbitrate_master-order :
    (id1 prio1 id2 prio2 id3 prio3 : ℕ)
    → (id1 ≢ id2
        → arbitrate_master id1 prio1 id2 prio2 ≡ not (arbitrate_master id2 prio2 id1 prio1))
      × (arbitrate_master id1 prio1 id1 prio1 ≡ false)
      × (arbitrate_master id1 prio1 id2 prio2 ≡ true
          → arbitrate_master id2 prio2 id3 prio3 ≡ true
          → arbitrate_master id1 prio1 id3 prio3 ≡ true)
unfolding arbitrate_master
arbitrate_master-order id1 prio1 id2 prio2 id3 prio3 =
    (λ h. ground arith, ground arith, λ h k. ground arith)

module _ (ops : ClockOps) where
  open ops use {Clk}

  abbrev pub InState : SyncState → Outcome Clk → Type 0
  InState st o = Ensures ops (λ s. s.state ≡ st) o

  become_client-client :
      (env : Env) (ep : Endpoint) (id prio timeline : ℕ) (s : Server Clk)
      → s.has_socket ≡ true
      → InState client (become_client ops env ep id prio timeline s)
  unfolding become_client join_timeline notify_clock_sync_loss set_force_low_priority
      reset_sync_stats send_sync_request send_packet send_to
  become_client-client env ep id prio timeline s h = ground arith

  -- What `s` announces, as `to` handles it.
  abbrev pub hear_announcement : Env → Endpoint → Server Clk → Server Clk → Outcome Clk
  hear_announcement env src s to =
      dispatch ops env (master_announcement_packet s).body
        (master_announcement_packet s).timeline_id src to

  -- If two masters with sockets and distinct identifiers hear each other's announcement, exactly one
  -- becomes a client, and the other is left as it was.
  pub rival_masters :
      (env1 env2 : Env) (src1 src2 : Endpoint) (a b : Server Clk)
      → a.state ≡ master
      → b.state ≡ master
      → a.has_socket ≡ true
      → b.has_socket ≡ true
      → a.device_id ≢ b.device_id
      → (InState client (hear_announcement env1 src1 b a)
          × (hear_announcement env2 src2 a b ≡ done b true))
        ⊎ ((hear_announcement env1 src1 b a ≡ done a true)
            × InState client (hear_announcement env2 src2 a b))
  unfolding dispatch handle_master_announcement master_announcement_packet
  rival_masters env1 env2 src1 src2 a b ma mb ha hb d =
      let order =
        (arbitrate_master-order a.device_id (effective_priority a) b.device_id
            (effective_priority b) 0 0).0
          d in
      let yields =
        become_client-client env1 src1 b.device_id (effective_priority b) b.timeline_id a ha in
      let yields' =
        become_client-client env2 src2 a.device_id (effective_priority a) a.timeline_id b hb in
      elim (Bool-cases
        (arbitrate_master b.device_id (effective_priority b) a.device_id (effective_priority a))) [
          | inl w ↦ inl (ground arith, ground arith)
          | inr l ↦ inr (ground arith, ground arith)
        ]
