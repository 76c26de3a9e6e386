-- ===== src/CommonTime/RttLog/Recorded.antt =====
-- CommonTimeServer::PacketRTTLog: a reply reaches the entry of its request.
use f2ut_platform_frameworks.Prelude.{
  Bool, Bool-cases, List, ap, arith, false, get_or, get_or-set_self, if◌then◌else◌, inl, inr,
  length, length-set, not, refl, set, some, suc, true, zero, ℕ, ◌%◌, ◌&&◌, ◌+◌, ◌-◌, ◌<◌, ◌==◌, ◌∙◌,
  ◌≡◌, ◌≢◌,
}
use f2ut_platform_frameworks.CommonTime.RttLog.{RttLog, find_slot, log_rx, log_tx, reset_log}

-- The arrays have their size, and the write position is inside them.
pub record WellFormed (l : RttLog) : Type 0 where
  pub position : l.wr_ptr < 30
  pub tx_length : length l.tx_times ≡ 30
  pub rx_length : length l.rx_times ≡ 30

pub reset_log-WellFormed : (l : RttLog) → WellFormed l → WellFormed (reset_log l)
unfolding reset_log
reset_log-WellFormed l wf = record {
  position = omega arith;
  tx_length = wf.tx_length;
  rx_length = wf.rx_length;
}

pub log_tx-WellFormed : (t : ℕ) (l : RttLog) → WellFormed l → WellFormed (log_tx t l)
unfolding log_tx
log_tx-WellFormed t l wf = record {
  position = omega arith;
  tx_length = length-set l.tx_times l.wr_ptr t ∙ wf.tx_length;
  rx_length = length-set l.rx_times l.wr_ptr 0 ∙ wf.rx_length;
}

-- The search ends at a slot that holds the time.
Finds : ℕ → ℕ → ℕ → RttLog → Type 0
Finds rounds t i l =
    (k : ℕ) × ((find_slot rounds t i l ≡ some k) × ((k < 30) × (get_or l.tx_times k 0 ≡ t)))

found_later :
    (rounds t i : ℕ) (l : RttLog)
    → (get_or l.tx_times i 0 == t) ≡ false
    → ((i + 1) % 30 == l.wr_ptr) ≡ false
    → Finds rounds t ((i + 1) % 30) l
    → Finds (suc rounds) t i l
unfolding find_slot Finds
found_later rounds t i l miss more (k, (e, rest)) = (k, (ground (arith, e), rest))

found_now :
    (rounds t i : ℕ) (l : RttLog)
    → i < 30
    → (get_or l.tx_times i 0 == t) ≡ true
    → Finds (suc rounds) t i l
unfolding find_slot Finds
found_now rounds t i l hi hit = (i, (ground (arith, hit), (hi, ground arith)))

differ :
    (t i j : ℕ) (times : List ℕ) → (get_or times i 0 == t) ≡ false → get_or times j 0 ≡ t → i ≢ j
differ t i j times miss holds e = let at_i = ap (λ k. get_or times k 0) e in ground (arith, at_i)

-- The slot before the write position is the last one that the search visits.
find_slot-Finds :
    (rounds t i j steps : ℕ) (l : RttLog)
    → i < 30
    → j < 30
    → (j + 1) % 30 ≡ l.wr_ptr
    → get_or l.tx_times j 0 ≡ t
    → (i + steps) % 30 ≡ j
    → steps < rounds
    → Finds rounds t i l
find_slot-Finds zero t i j steps l hi hj last holds reach fuel = absurd (omega arith)
find_slot-Finds (suc rounds) t i j steps l hi hj last holds reach fuel =
    elim (Bool-cases (get_or l.tx_times i 0 == t)) [
      | inl hit ↦ found_now rounds t i l hi hit
      | inr miss ↦
          let apart = differ t i j l.tx_times miss holds in
          found_later rounds t i l miss (ground arith) (
            find_slot-Finds rounds t ((i + 1) % 30) j (steps - 1) l (omega arith) hj last holds
              (omega arith) (omega arith))
    ]

search_all :
    (t j : ℕ) (l : RttLog) (full : Bool)
    → l.wr_ptr < 30
    → j < 30
    → (j + 1) % 30 ≡ l.wr_ptr
    → get_or l.tx_times j 0 ≡ t
    → (full ≡ false → 0 < l.wr_ptr)
    → Finds 30 t (if full then l.wr_ptr else 0) l
search_all t j l true hw hj last holds some_entry =
    find_slot-Finds 30 t l.wr_ptr j 29 l hw hj last holds (omega arith) (omega arith)
search_all t j l false hw hj last holds some_entry =
    let positive = some_entry refl in
    find_slot-Finds 30 t 0 j j l (omega arith) hj last holds (omega arith) (omega arith)

not_empty : (full : Bool) (w : ℕ) → (full ≡ false → 0 < w) → (not full && w == 0) ≡ false
not_empty true w h = refl
not_empty false w h = let positive = h refl in ground arith

log_rx-writes :
    (t r k : ℕ) (l : RttLog)
    → (l.log_full ≡ false → 0 < l.wr_ptr)
    → find_slot 30 t (if l.log_full then l.wr_ptr else 0) l ≡ some k
    → log_rx t r l ≡ record l { rx_times = set l.rx_times k r }
unfolding log_rx
log_rx-writes t r k l some_entry found =
    let guard = not_empty l.log_full l.wr_ptr some_entry in rw (guard, found) refl

log_rx_found :
    (t r : ℕ) (l : RttLog)
    → length l.rx_times ≡ 30
    → (l.log_full ≡ false → 0 < l.wr_ptr)
    → Finds 30 t (if l.log_full then l.wr_ptr else 0) l
    → (k : ℕ) × ((get_or (log_rx t r l).tx_times k 0 ≡ t)
        × (get_or (log_rx t r l).rx_times k 0 ≡ r))
unfolding Finds
log_rx_found t r l size some_entry (k, (found, (hk, holds))) =
    let written = get_or-set_self l.rx_times k r 0 (omega (arith, size)) in
    let writes = log_rx-writes t r k l some_entry found in
    (
      k,
      (
        ap (λ m. get_or m.tx_times k 0) writes ∙ holds,
        ap (λ m. get_or m.rx_times k 0) writes ∙ written,
      ),
    )

-- A request is logged and then its reply, on a log in good order: some entry then holds the times of
-- both.
pub log_rx-log_tx :
    (t r : ℕ) (l : RttLog)
    → WellFormed l
    → (k : ℕ) × ((get_or (log_rx t r (log_tx t l)).tx_times k 0 ≡ t)
        × (get_or (log_rx t r (log_tx t l)).rx_times k 0 ≡ r))
unfolding log_tx
log_rx-log_tx t r l wf =
    let wf' = log_tx-WellFormed t l wf in
    let holds = get_or-set_self l.tx_times l.wr_ptr t 0 (omega (arith, wf.tx_length)) in
    let some_entry : ((log_tx t l).log_full ≡ false → 0 < (log_tx t l).wr_ptr) =
      λ h. ground arith in
    log_rx_found t r (log_tx t l) wf'.rx_length some_entry (
      search_all t l.wr_ptr (log_tx t l) (log_tx t l).log_full wf'.position wf.position refl holds
        some_entry)
