-- ===== src/CommonTime/RttLog.antt =====
-- CommonTimeServer::PacketRTTLog of libs/common_time/common_time_server.cpp: a ring of the last 30
-- transmit times, each with the time of its reply.
pub mod Recorded
use f2ut_platform_frameworks.Prelude.{
  Bool, List, Option, false, get_or, if◌then◌else◌, none, not, set, some, suc, true, zero, ℕ, ◌%◌,
  ◌&&◌, ◌+◌, ◌==◌,
}

-- RTT_LOG_SIZE
abbrev pub rtt_log_size : ℕ
rtt_log_size = 30

pub record RttLog : Type 0 where
  pub wr_ptr : ℕ
  pub log_full : Bool
  pub tx_times : List ℕ
  pub rx_times : List ℕ

-- resetLog leaves the arrays as they are.
unfoldable pub reset_log : RttLog → RttLog
reset_log l = record l { wr_ptr = 0; log_full = false }

unfoldable pub log_tx : ℕ → RttLog → RttLog
log_tx time l =
    let next = (l.wr_ptr + 1) % rtt_log_size in
    record {
      wr_ptr = next;
      log_full = if next == 0 then true else l.log_full;
      tx_times = set l.tx_times l.wr_ptr time;
      rx_times = set l.rx_times l.wr_ptr 0;
    }

-- The search of logRX: it goes round from `i` until the time is found or the write position is met.
unfoldable pub find_slot : ℕ → ℕ → ℕ → RttLog → Option ℕ
find_slot zero time i l = none
find_slot (suc rounds) time i l =
    let next = (i + 1) % rtt_log_size in
    let rest = find_slot rounds time next l in
    if get_or l.tx_times i 0 == time then some i else if next == l.wr_ptr then none else rest

unfoldable pub log_rx : ℕ → ℕ → RttLog → RttLog
log_rx tx_time rx_time l =
    if not l.log_full && l.wr_ptr == 0
    then l
    else elim (find_slot rtt_log_size tx_time (if l.log_full then l.wr_ptr else 0) l) [
      | none ↦ l
      | some i ↦ record l { rx_times = set l.rx_times i rx_time }
    ]
