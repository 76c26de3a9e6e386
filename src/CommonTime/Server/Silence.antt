-- ===== src/CommonTime/Server/Silence.antt =====
-- What a server of libs/common_time/common_time_server.cpp does that is on a network and hears nobody.
use f2ut_platform_frameworks.Prelude.{
  List, [], arith, false, length, some, true, ℕ, ◌++◌, ◌+◌, ◌<◌, ◌∷◌, ◌≡◌, ◌≢◌, ◌≤◌,
}
use f2ut_platform_frameworks.CommonTime.ClockOps.{ClockOps}
use f2ut_platform_frameworks.CommonTime.Packets.{k_invalid_timeline_id}
use f2ut_platform_frameworks.CommonTime.Server.{
  Env, Outcome, Server, assert_failed, done, initial, master, reset_sync_stats, ronin,
  still_drawing,
}
use f2ut_platform_frameworks.CommonTime.Server.Invariant.{Ensures}
use f2ut_platform_frameworks.CommonTime.Server.Timeouts.{
  handle_timeout, handle_timeout_initial, handle_timeout_ronin, timeout_in,
}
use f2ut_platform_frameworks.CommonTime.Server.Transitions.{
  assign_timeline_id, become_initial, become_master, become_ronin, create_timeline,
  send_master_announcement, send_packet, send_to, send_who_is_master_request, take_mastership,
}

module _ (ops : ClockOps) where
  open ops use {Clk, is_valid, is_valid-reset_position}

  -- One timeout after another, with nothing received in between.
  unfoldable pub timeouts : List Env → Outcome Clk → Outcome Clk
  timeouts [] o = o
  timeouts (env ∷ envs) (done s b) = timeouts envs (handle_timeout ops env s)
  timeouts (env ∷ envs) assert_failed = assert_failed
  timeouts (env ∷ envs) still_drawing = still_drawing

  -- INITIAL on a network, after `n` unanswered requests.
  pub record Unanswered (n : ℕ) (s : Server Clk) : Type 0 where
    pub state : s.state ≡ initial
    pub socket : s.has_socket ≡ true
    pub count : s.initial_who_is_master_request_timeouts ≡ n
    pub no_timeline : s.timeline_id ≡ k_invalid_timeline_id
    pub no_time : is_valid s.clock ≡ false

  become_initial-Unanswered :
      (env : Env) (s : Server Clk)
      → s.has_socket ≡ true
      → Ensures ops (Unanswered 0) (become_initial ops env s)
  unfolding become_initial reset_sync_stats send_who_is_master_request send_packet send_to
  become_initial-Unanswered env s h = ground (arith, is_valid-reset_position true s.clock)

  Unanswered-step :
      (env : Env) (n : ℕ) (s : Server Clk)
      → n < 5
      → Unanswered n s
      → Ensures ops (Unanswered (n + 1)) (handle_timeout ops env s)
  unfolding handle_timeout timeout_in handle_timeout_initial send_who_is_master_request send_packet
      send_to
  Unanswered-step env n s h u = ground arith

  pub take_mastership-master :
      (env : Env) (s : Server Clk)
      → Ensures ops
          (λ s'. (s'.state ≡ master) × (s'.timeline_id ≡ s.timeline_id))
          (take_mastership ops env s)
  unfolding take_mastership reset_sync_stats send_master_announcement send_packet send_to
  take_mastership-master env s = ground arith

  Unanswered-last :
      (env : Env) (id : ℕ) (s : Server Clk)
      → assign_timeline_id env.draws ≡ some id
      → Unanswered 5 s
      → Ensures ops (λ s'. s'.state ≡ master) (handle_timeout ops env s)
  unfolding handle_timeout timeout_in handle_timeout_initial become_master
  Unanswered-last env id s d u =
      let s1 : Server Clk = record s {
        initial_who_is_master_request_timeouts = s.initial_who_is_master_request_timeouts + 1;
      } in
      ground (arith, take_mastership-master env (create_timeline ops env id s1))

  Unanswered-timeouts :
      (envs : List Env) (env : Env) (id n : ℕ) (o : Outcome Clk)
      → assign_timeline_id env.draws ≡ some id
      → n + length envs ≡ 5
      → Ensures ops (Unanswered n) o
      → Ensures ops (λ s. s.state ≡ master) (timeouts (envs ++ env ∷ []) o)
  unfolding timeouts
  Unanswered-timeouts [] env id n (done s b) d h u =
      let five : n ≡ 5 = omega arith in Unanswered-last env id s d (rw (← five) u)
  Unanswered-timeouts (e ∷ envs) env id n (done s b) d h u =
      Unanswered-timeouts envs env id (n + 1) (handle_timeout ops e s) d (omega arith)
        (Unanswered-step e n s (omega arith) u)
  Unanswered-timeouts envs env id n assert_failed d h u = absurd u
  Unanswered-timeouts envs env id n still_drawing d h u = absurd u

  Unanswered-early :
      (envs : List Env) (n : ℕ) (o : Outcome Clk)
      → n + length envs ≤ 5
      → Ensures ops (Unanswered n) o
      → Ensures ops (λ s. s.state ≡ initial) (timeouts envs o)
  unfolding timeouts
  Unanswered-early [] n (done s b) h u = u.state
  Unanswered-early (e ∷ envs) n (done s b) h u =
      Unanswered-early envs (n + 1) (handle_timeout ops e s) (omega arith)
        (Unanswered-step e n s (omega arith) u)
  Unanswered-early envs n assert_failed h u = absurd u
  Unanswered-early envs n still_drawing h u = absurd u

  -- A server with a socket that resets to INITIAL and hears nobody, whatever its state was, is still
  -- in INITIAL after any five timeouts or fewer, and is master after six, if a valid timeline
  -- identifier is drawn at the sixth.
  pub become_initial-master :
      (boot : Env) (early envs : List Env) (last : Env) (id : ℕ) (s : Server Clk)
      → s.has_socket ≡ true
      → length early ≤ 5
      → length envs ≡ 5
      → assign_timeline_id last.draws ≡ some id
      → Ensures ops (λ s'. s'.state ≡ initial) (timeouts early (become_initial ops boot s))
        × Ensures ops
            (λ s'. s'.state ≡ master)
            (timeouts (envs ++ last ∷ []) (become_initial ops boot s))
  become_initial-master boot early envs last id s h e l d =
      let start = become_initial-Unanswered boot s h in
      (
        Unanswered-early early 0 _ (omega arith) start,
        Unanswered-timeouts envs last id 0 _ d (omega arith) start,
      )

  -- RONIN after `n` unanswered requests, on a timeline.
  record Lonely (timeline n : ℕ) (s : Server Clk) : Type 0 where
    state : s.state ≡ ronin
    socket : s.has_socket ≡ true
    count : s.ronin_who_is_master_request_timeouts ≡ n
    follows : s.timeline_id ≡ timeline

  abbrev pub MasterOf : ℕ → Outcome Clk → Type 0
  MasterOf timeline o = Ensures ops (λ s. (s.state ≡ master) × (s.timeline_id ≡ timeline)) o

  abbrev pub RoninOf : ℕ → Outcome Clk → Type 0
  RoninOf timeline o = Ensures ops (λ s. (s.state ≡ ronin) × (s.timeline_id ≡ timeline)) o

  become_ronin-Lonely :
      (env : Env) (s : Server Clk)
      → s.has_socket ≡ true
      → is_valid s.clock ≡ true
      → Ensures ops (Lonely s.timeline_id 0) (become_ronin ops env s)
  unfolding become_ronin send_who_is_master_request send_packet send_to
  become_ronin-Lonely env s h k = ground arith

  Lonely-step :
      (env : Env) (timeline n : ℕ) (s : Server Clk)
      → n < 19
      → Lonely timeline n s
      → Ensures ops (Lonely timeline (n + 1)) (handle_timeout ops env s)
  unfolding handle_timeout timeout_in handle_timeout_ronin send_who_is_master_request send_packet
      send_to
  Lonely-step env timeline n s h u = ground arith

  Lonely-last :
      (env : Env) (timeline : ℕ) (s : Server Clk)
      → timeline ≢ k_invalid_timeline_id
      → Lonely timeline 19 s
      → MasterOf timeline (handle_timeout ops env s)
  unfolding handle_timeout timeout_in handle_timeout_ronin become_master
  Lonely-last env timeline s t u =
      let s1 : Server Clk = record s {
        ronin_who_is_master_request_timeouts = s.ronin_who_is_master_request_timeouts + 1;
      } in
      ground (arith, take_mastership-master env s1)

  Lonely-timeouts :
      (envs : List Env) (last : Env) (timeline n : ℕ) (o : Outcome Clk)
      → timeline ≢ k_invalid_timeline_id
      → n + length envs ≡ 19
      → Ensures ops (Lonely timeline n) o
      → MasterOf timeline (timeouts (envs ++ last ∷ []) o)
  unfolding timeouts
  Lonely-timeouts [] last timeline n (done s b) t l u =
      let nineteen : n ≡ 19 = omega arith in Lonely-last last timeline s t (rw (← nineteen) u)
  Lonely-timeouts (e ∷ envs) last timeline n (done s b) t l u =
      Lonely-timeouts envs last timeline (n + 1) (handle_timeout ops e s) t (omega arith)
        (Lonely-step e timeline n s (omega arith) u)
  Lonely-timeouts envs last timeline n assert_failed t l u = absurd u
  Lonely-timeouts envs last timeline n still_drawing t l u = absurd u

  Lonely-early :
      (envs : List Env) (timeline n : ℕ) (o : Outcome Clk)
      → n + length envs ≤ 19
      → Ensures ops (Lonely timeline n) o
      → RoninOf timeline (timeouts envs o)
  unfolding timeouts
  Lonely-early [] timeline n (done s b) h u = (u.state, u.follows)
  Lonely-early (e ∷ envs) timeline n (done s b) h u =
      Lonely-early envs timeline (n + 1) (handle_timeout ops e s) (omega arith)
        (Lonely-step e timeline n s (omega arith) u)
  Lonely-early envs timeline n assert_failed h u = absurd u
  Lonely-early envs timeline n still_drawing h u = absurd u

  -- A server with a socket, a common time and a timeline that loses its master and then hears nobody
  -- is still in RONIN on its timeline after any 19 timeouts or fewer, and is the master of the same
  -- timeline after 20.
  pub become_ronin-master :
      (lost : Env) (early envs : List Env) (last : Env) (s : Server Clk)
      → s.has_socket ≡ true
      → is_valid s.clock ≡ true
      → s.timeline_id ≢ k_invalid_timeline_id
      → length early ≤ 19
      → length envs ≡ 19
      → RoninOf s.timeline_id (timeouts early (become_ronin ops lost s))
        × MasterOf s.timeline_id (timeouts (envs ++ last ∷ []) (become_ronin ops lost s))
  become_ronin-master lost early envs last s h k t e l =
      let start = become_ronin-Lonely lost s h k in
      (
        Lonely-early early s.timeline_id 0 _ (omega arith) start,
        Lonely-timeouts envs last s.timeline_id 0 _ t (omega arith) start,
      )
