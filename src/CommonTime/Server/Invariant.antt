-- ===== src/CommonTime/Server/Invariant.antt =====
-- The invariant of the state machine of libs/common_time/common_time_server.cpp, and that the sends and
-- the changes of state keep it and pass their assertions.
use f2ut_platform_frameworks.Prelude.{
  Bool, Bool-cases, List, [], arith, false, if◌then◌else◌, inl, inr, not, refl, some, sym, true, ℕ,
  ◌&&◌, ◌==◌, ◌||◌, ◌∙◌, ◌∷◌, ◌≡◌, ◌≢◌,
}
use f2ut_platform_frameworks.CommonTime.ClockOps.{ClockOps}
use f2ut_platform_frameworks.CommonTime.Packets.{k_invalid_timeline_id}
use f2ut_platform_frameworks.CommonTime.Server.{
  Endpoint, Env, Outcome, Server, SyncState, assert_failed, done, initial, is_client, is_initial,
  is_master, is_ronin, notify_clock_sync, notify_clock_sync_loss, reset_sync_stats, ronin,
  set_force_low_priority, still_drawing, wait_for_election,
}
use f2ut_platform_frameworks.CommonTime.Server.Transitions.{
  assign_timeline_id, become_client, become_initial, become_master, become_ronin,
  become_wait_for_election, create_timeline, join_timeline, send_master_announcement, send_packet,
  send_sync_request, send_to, send_who_is_master_request, take_mastership,
}

-- States that are entered only with a common time.
abbrev pub keeps_time : SyncState → Bool
keeps_time ronin = true
keeps_time wait_for_election = true
keeps_time _ = false

-- States of a server that follows a timeline.
abbrev pub on_timeline : SyncState → Bool
on_timeline initial = false
on_timeline _ = true

module _ (ops : ClockOps) where
  open ops use {
    Clk, is_valid, set_basis, reset, is_valid-set_basis, is_valid-reset_position,
    is_valid-reset_frequency,
  }

  pub record Inv (s : Server Clk) : Type 0 where
    pub endpoint : (not (is_client s.state) || s.master_ep_valid) ≡ true
    pub basis : (not (s.timeline_id == k_invalid_timeline_id) || not (is_valid s.clock)) ≡ true
    pub time : (not (keeps_time s.state) || is_valid s.clock) ≡ true
    pub timeline :
        (not (on_timeline s.state) || not (s.timeline_id == k_invalid_timeline_id)) ≡ true

  -- The method returns, with no failed assertion, and the state satisfies P.
  abbrev pub Ensures : (Server Clk → Type 0) → Outcome Clk → Type 0
  Ensures P (done s b) = P s
  Ensures P assert_failed = ⊥
  Ensures P still_drawing = ⊥

  -- What holds of both branches holds of a test.
  pub Ensures-if :
      (P : Server Clk → Type 0) (b : Bool) (x y : Outcome Clk)
      → Ensures P x
      → Ensures P y
      → Ensures P (if b then x else y)
  Ensures-if P true x y h k = h
  Ensures-if P false x y h k = k

  module _ (env : Env) where
    pub send_who_is_master_request-Inv :
        (s : Server Clk)
        → Inv s
        → (is_initial s.state || (is_ronin s.state && s.has_socket)) ≡ true
        → Ensures Inv (send_who_is_master_request env s)
    unfolding send_who_is_master_request send_packet send_to
    send_who_is_master_request-Inv s v h = ground arith

    pub send_sync_request-Inv :
        (s : Server Clk)
        → Inv s
        → s.has_socket ≡ true
        → is_client s.state ≡ true
        → Ensures Inv (send_sync_request env s)
    unfolding send_sync_request send_packet send_to
    send_sync_request-Inv s v k h = ground arith

    pub send_master_announcement-Inv :
        (s : Server Clk)
        → Inv s
        → is_master s.state ≡ true
        → Ensures Inv (send_master_announcement env s)
    unfolding send_master_announcement send_packet send_to
    send_master_announcement-Inv s v h = ground arith

    pub become_wait_for_election-Inv :
        (s : Server Clk)
        → Inv s
        → s.has_socket ≡ true
        → is_valid s.clock ≡ true
        → Ensures Inv (become_wait_for_election ops env s)
    unfolding become_wait_for_election
    become_wait_for_election-Inv s v h k = ground arith

    -- INITIAL is entered from any state.
    pub become_initial-Inv : (s : Server Clk) → Ensures Inv (become_initial ops env s)
    unfolding become_initial reset_sync_stats
    become_initial-Inv s =
        send_who_is_master_request-Inv _
          (record {
            endpoint = refl;
            basis = ground (arith, is_valid-reset_position true s.clock);
            time = refl;
            timeline = refl;
          })
          refl

    pub become_ronin-Inv :
        (s : Server Clk) → Inv s → s.has_socket ≡ true → Ensures Inv (become_ronin ops env s)
    unfolding become_ronin
    become_ronin-Inv s v h = elim (Bool-cases (is_valid s.clock)) [
      | inl k ↦ rw k (
          send_who_is_master_request-Inv _
            (record { endpoint = refl; basis = ground arith; time = k; timeline = ground arith }) h)
      | inr k ↦ rw k (become_initial-Inv _)
    ]

    join_timeline_lem :
        (timeline : ℕ) (s : Server Clk)
        → Inv s
        → timeline ≢ k_invalid_timeline_id
        → ((join_timeline ops env timeline s).timeline_id ≡ timeline)
          × ((join_timeline ops env timeline s).has_socket ≡ s.has_socket)
    unfolding join_timeline notify_clock_sync_loss
    join_timeline_lem timeline s v h = ground arith

    pub become_client-Inv :
        (ep : Endpoint) (id prio timeline : ℕ) (s : Server Clk)
        → Inv s
        → s.has_socket ≡ true
        → timeline ≢ k_invalid_timeline_id
        → Ensures Inv (become_client ops env ep id prio timeline s)
    unfolding become_client reset_sync_stats set_force_low_priority
    become_client-Inv ep id prio timeline s v h k =
        send_sync_request-Inv _
          (record {
            endpoint = ground arith;
            basis = ground (arith, join_timeline_lem timeline s v k);
            time = refl;
            timeline = ground (arith, join_timeline_lem timeline s v k);
          })
          (ground (arith, join_timeline_lem timeline s v k)) refl

    take_mastership-Inv :
        (s : Server Clk)
        → s.timeline_id ≢ k_invalid_timeline_id
        → Ensures Inv (take_mastership ops env s)
    unfolding take_mastership reset_sync_stats
    take_mastership-Inv s h =
        send_master_announcement-Inv _
          (record { endpoint = refl; basis = ground arith; time = refl; timeline = ground arith })
          refl

    pub assign_timeline_id-valid :
        (draws : List ℕ) (id : ℕ) → assign_timeline_id draws ≡ some id → id ≢ k_invalid_timeline_id
    unfolding assign_timeline_id
    assign_timeline_id-valid [] id h = cc
    assign_timeline_id-valid (x ∷ xs) id h = ground (arith, assign_timeline_id-valid xs id)

    create_timeline-timeline :
        (id : ℕ) (s : Server Clk) → (create_timeline ops env id s).timeline_id ≡ id
    unfolding create_timeline notify_clock_sync
    create_timeline-timeline id s = ground arith

    -- If a valid identifier is drawn, MASTER is entered from any state that keeps the invariant.
    pub become_master-Inv :
        (s : Server Clk) (id : ℕ)
        → (not (s.timeline_id == k_invalid_timeline_id) || not (is_valid s.clock)) ≡ true
        → assign_timeline_id env.draws ≡ some id
        → Ensures Inv (become_master ops env s)
    unfolding become_master
    become_master-Inv s id v d = elim (Bool-cases (s.timeline_id == k_invalid_timeline_id)) [
      | inl e ↦
          let stopped : is_valid s.clock ≡ false = ground arith in
          rw (e, stopped, d)
            (take_mastership-Inv _ (λ z.
              assign_timeline_id-valid env.draws id d (sym (create_timeline-timeline id s) ∙ z)))
      | inr e ↦ rw e (take_mastership-Inv s (ground arith))
    ]
