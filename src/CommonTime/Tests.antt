-- ===== src/CommonTime/Tests.antt =====
-- The time service at concrete inputs: a clock that runs at the local rate, five situations of a
-- server, and the theorems there.
use f2ut_platform_frameworks.Prelude.{
  Bool, List, Option, [], arith, false, get_or, if◌then◌else◌, none, not, refl, some, true, ℕ, ◌++◌,
  ◌+◌, ◌-◌, ◌∷◌, ◌≡◌, ◌≢◌, ◌⊎◌,
}
use f2ut_platform_frameworks.Prelude.{◌*◌, ◌≤◌}
use f2ut_platform_frameworks.Prelude.Int.{negsuc, pos}
use f2ut_platform_frameworks.CommonTime.Timeout.{
  msec_till_timeout, msec_till_timeout-set_timeout, set_timeout,
}
use f2ut_platform_frameworks.CommonTime.ClockOps.{ClockOps}
use f2ut_platform_frameworks.CommonTime.Packets.Tests.{announcement, announcement-NamesTimeline}
use f2ut_platform_frameworks.CommonTime.RttLog.{RttLog, log_rx, log_tx}
use f2ut_platform_frameworks.CommonTime.RttLog.Recorded.{log_rx-log_tx}
use f2ut_platform_frameworks.CommonTime.Server.{
  Endpoint, Env, Server, arbitrate_master, client, done, inet, initial, master, no_endpoint,
}
use f2ut_platform_frameworks.CommonTime.Server.Election.{
  InState, arbitrate_master-order, hear_announcement, rival_masters,
}
use f2ut_platform_frameworks.CommonTime.Server.Invariant.{Ensures, Inv}
use f2ut_platform_frameworks.CommonTime.Server.Loop.{Wakeup, enter_networkless, iterate}
use f2ut_platform_frameworks.CommonTime.Server.Networkless.{
  IsNetworkless, iterate-IsNetworkless, unsynced_client_becomes_master,
}
use f2ut_platform_frameworks.CommonTime.Server.Run.{SanePeer, iterate-Inv}
use f2ut_platform_frameworks.CommonTime.Server.Silence.{
  MasterOf, RoninOf, become_initial-master, become_ronin-master, timeouts,
}
use f2ut_platform_frameworks.CommonTime.Server.Transitions.{
  assign_timeline_id, become_initial, become_ronin,
}
use mathlib.Core.Bool.{true≢false}

abbrev told : Option (ℕ × ℕ) → ℕ → Option ℕ
told none t = none
told (some b) t = some (t - b.0 + b.1)

abbrev is_set : Option (ℕ × ℕ) → Bool
is_set none = false
is_set (some b) = true

untold : (k : Option (ℕ × ℕ)) (t : ℕ) → is_set k ≡ false → told k t ≡ none
untold none t h = refl
untold (some b) t h = absurd (true≢false h)

-- A clock with at most one basis, at the local frequency, that every measurement sets again.
abbrev basis_clock : ClockOps
basis_clock = record {
  Clk = Option (ℕ × ℕ);
  is_valid = is_set;
  set_basis = λ l c k. some (l, c);
  local_to_common = told;
  local_duration_to_common_duration = λ k d. d;
  reset = λ position frequency k. if position then none else k;
  push_discipline_event = λ l c rtt k. (true, some (l, c));
  is_valid-set_basis = λ l c k. refl;
  is_valid-reset_position = λ f k. refl;
  is_valid-reset_frequency = λ f k. refl;
  local_to_common_invalid = untold;
}

abbrev empty_log : RttLog
empty_log = record { wr_ptr = 0; log_full = false; tx_times = []; rx_times = [] }

abbrev group_address : Endpoint
group_address = inet 0xe0000001 8886

-- A new server with a socket.
abbrev newcomer : Server (Option (ℕ × ℕ))
newcomer = record {
  state = initial;
  clock = none;
  cur_timeout = some 500;
  has_socket = true;
  last_packet_rx_local_time = 0;
  timeline_id = 0;
  clock_synced = false;
  force_low_priority = true;
  common_clock_has_clients = true;
  master_election_ep = group_address;
  bind_iface_valid = true;
  bind_iface_dirty = false;
  master_ep = no_endpoint;
  master_ep_valid = false;
  device_id = 5;
  sync_group_id = 1;
  master_priority = 1;
  master_announce_interval_ms = 10000;
  sync_request_interval_ms = 1000;
  panic_threshold_usec = 50000;
  auto_disable = true;
  initial_who_is_master_request_timeouts = 0;
  client_master_device_id = 0;
  client_master_device_priority = 0;
  client_sync_request_pending = false;
  client_sync_request_timeouts = 0;
  client_syncs_sent_to_cur_master = 0;
  client_sync_resps_rxed_from_cur_master = 0;
  client_expired_sync_resps_rxed_from_cur_master = 0;
  client_first_sync_tx = 0;
  client_last_good_sync_rx = 0;
  client_packet_rtt_log = empty_log;
  ronin_who_is_master_request_timeouts = 0;
  outbox = [];
  notified = [];
}

abbrev quiet : Env
quiet = record { now = 1000; tx_time = 1000; send_works = true; draws = 0 ∷ 9 ∷ []; unset = false }

abbrev hearing : Wakeup
hearing = record {
  env = quiet;
  wakeup_time = 900;
  timed_out = false;
  socket_ready = true;
  hardware_address = some 5;
  datagram = some announcement;
  src = inet 1 8886;
}

newcomer-Inv : Inv basis_clock newcomer
newcomer-Inv = record { endpoint = refl; basis = refl; time = refl; timeline = refl }

quiet-drawn : assign_timeline_id quiet.draws ≡ some 9
unfolding assign_timeline_id
quiet-drawn = refl

announcement-SanePeer : SanePeer (some announcement) 1
announcement-SanePeer p e = announcement-NamesTimeline p e

-- The newcomer hears the announcement.
iterate-Inv_example : Ensures basis_clock (Inv basis_clock) (iterate basis_clock hearing newcomer)
iterate-Inv_example =
    iterate-Inv basis_clock hearing 9 quiet-drawn newcomer newcomer-Inv announcement-SanePeer

-- A master on timeline 7, another one, a synchronised client and an unsynchronised one.
abbrev master5 : Server (Option (ℕ × ℕ))
master5 = record newcomer { state = master; timeline_id = 7; clock = some (0, 0) }

abbrev master6 : Server (Option (ℕ × ℕ))
master6 = record master5 { device_id = 6; timeline_id = 3 }

abbrev synced_client : Server (Option (ℕ × ℕ))
synced_client = record newcomer {
  state = client;
  timeline_id = 7;
  clock = some (0, 0);
  master_ep_valid = true;
}

abbrev unsynced_client : Server (Option (ℕ × ℕ))
unsynced_client = record synced_client {
  clock = none;
  bind_iface_dirty = true;
  bind_iface_valid = false;
}

unsynced_client-Inv : Inv basis_clock unsynced_client
unsynced_client-Inv = record { endpoint = refl; basis = refl; time = refl; timeline = refl }

abbrev idle_client : Server (Option (ℕ × ℕ))
idle_client = record synced_client { has_socket = false; common_clock_has_clients = false }

abbrev untimed_master : Server (Option (ℕ × ℕ))
untimed_master = record master5 { clock = none }

abbrev five : List Env
five = quiet ∷ quiet ∷ quiet ∷ quiet ∷ quiet ∷ []

-- Two masters hear each other.
rival_masters_example :
    (InState basis_clock client (hear_announcement basis_clock quiet group_address master6 master5)
      × (hear_announcement basis_clock quiet group_address master5 master6 ≡ done master6 true))
    ⊎ ((hear_announcement basis_clock quiet group_address master6 master5 ≡ done master5 true)
        × InState basis_clock client
            (hear_announcement basis_clock quiet group_address master5 master6))
rival_masters_example =
    rival_masters basis_clock quiet quiet group_address group_address master5 master6 refl refl refl
      refl (λ (h : 5 ≡ 6). omega arith)

-- A client whose lost timeline is 7.
become_ronin-master_example :
    RoninOf basis_clock 7 (timeouts basis_clock five (become_ronin basis_clock quiet synced_client))
    × MasterOf basis_clock 7 (
        timeouts basis_clock
          ((five ++ five ++ five ++ quiet ∷ quiet ∷ quiet ∷ quiet ∷ []) ++ quiet ∷ [])
          (become_ronin basis_clock quiet synced_client))
become_ronin-master_example =
    become_ronin-master basis_clock quiet five
      (five ++ five ++ five ++ quiet ∷ quiet ∷ quiet ∷ quiet ∷ []) quiet synced_client refl refl
      (λ (h : 7 ≡ 0). omega arith) (omega arith) refl

become_initial-master_example :
    Ensures basis_clock
      (λ s'. s'.state ≡ initial)
      (timeouts basis_clock five (become_initial basis_clock quiet synced_client))
    × Ensures basis_clock
        (λ s'. s'.state ≡ master)
        (timeouts basis_clock (five ++ quiet ∷ []) (become_initial basis_clock quiet synced_client))
become_initial-master_example =
    become_initial-master basis_clock quiet five five quiet 9 synced_client refl (omega arith) refl
      quiet-drawn

arbitrate_master-order_example :
    let id1 : ℕ = 5 in
    let id2 : ℕ = 6 in
    (id1 ≢ id2 → arbitrate_master 5 129 6 1 ≡ not (arbitrate_master 6 1 5 129))
    × (arbitrate_master 5 129 5 129 ≡ false)
    × (arbitrate_master 5 129 6 1 ≡ true
        → arbitrate_master 6 1 4 1 ≡ true
        → arbitrate_master 5 129 4 1 ≡ true)
arbitrate_master-order_example = arbitrate_master-order 5 129 6 1 4 1

-- The interface of the unsynchronised client went away.
iterate-IsNetworkless_example :
    Ensures basis_clock (IsNetworkless basis_clock) (iterate basis_clock hearing unsynced_client)
iterate-IsNetworkless_example =
    iterate-IsNetworkless basis_clock hearing 9 unsynced_client quiet-drawn unsynced_client-Inv refl
      refl

unsynced_client_becomes_master_example :
    Ensures basis_clock
      (λ s'. (s'.state ≡ master) × (s'.timeline_id ≡ 7) × (basis_clock.is_valid s'.clock ≡ false))
      (enter_networkless basis_clock hearing unsynced_client)
unsynced_client_becomes_master_example =
    unsynced_client_becomes_master basis_clock hearing unsynced_client refl
      (λ (h : 7 ≡ 0). omega arith) refl

abbrev thirty : List ℕ
thirty =
    1 ∷ 2 ∷ 3 ∷ 4 ∷ 5 ∷ 6 ∷ 7 ∷ 8 ∷ 9 ∷ 10 ∷ 11 ∷ 12 ∷ 13 ∷ 14 ∷ 15 ∷ 16 ∷ 17 ∷ 18 ∷ 19 ∷ 20 ∷ 21
    ∷ 22 ∷ 23 ∷ 24 ∷ 25 ∷ 26 ∷ 27 ∷ 28 ∷ 29 ∷ 30 ∷ []

-- A log about to wrap.
abbrev last_entry : RttLog
last_entry = record { wr_ptr = 29; log_full = true; tx_times = thirty; rx_times = thirty }

log_rx-log_tx_example :
    (k : ℕ) × ((get_or (log_rx 500 600 (log_tx 500 last_entry)).tx_times k 0 ≡ 500)
      × (get_or (log_rx 500 600 (log_tx 500 last_entry)).rx_times k 0 ≡ 600))
log_rx-log_tx_example =
    log_rx-log_tx 500 600 last_entry
      (record { position = omega arith; tx_length = refl; rx_length = refl })

-- Two milliseconds set at the time 5; half a millisecond later two of them are left.
msec_till_timeout-set_timeout_example :
    ((n : ℕ) × (msec_till_timeout 500005 (set_timeout 5 (pos 2)) ≡ pos n)
      × (5 + 2 * 1000000 ≤ 500005 + n * 1000000)
      × ((k : ℕ) → 5 + 2 * 1000000 ≤ 500005 + k * 1000000 → n ≤ k)
      × (n ≤ 2))
    × ((m : ℕ) → msec_till_timeout 500005 (set_timeout 5 (negsuc m)) ≡ negsuc 0)
msec_till_timeout-set_timeout_example =
    msec_till_timeout-set_timeout 5 500005 2 (omega arith) (omega arith) (omega arith)
