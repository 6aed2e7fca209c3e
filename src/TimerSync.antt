-- ===== src/TimerSync.antt =====
-- The offset between the host's clock and the concentrator's counter, src/fwd/src/timersync.c.
-- `tv_sec` is kept as its lower 32 bits, all that the time of the counter depends on: the
-- differences wrap as they do there, and a value below zero is its residue.
pub mod Clock
mod Tests
use dragino_fwd_src_lps8_mqt.Base.{
  ℕ, ◌+◌, ◌-◌, ◌*◌, ◌/◌, ◌%◌, List, [], ◌∷◌, ltb, if◌then◌else◌, u32, sub32,
}

pub record TimeVal : Type 0 where
  pub tv_sec : ℕ
  pub tv_usec : ℕ

-- The borrow: `tv_usec` below zero.
pub timer_sub : TimeVal → TimeVal → TimeVal
timer_sub a b =
    if ltb a.tv_usec b.tv_usec
    then (record {
      tv_sec = sub32 (sub32 a.tv_sec b.tv_sec) 1;
      tv_usec = a.tv_usec + 1000000 - b.tv_usec;
    })
    else (record { tv_sec = sub32 a.tv_sec b.tv_sec; tv_usec = a.tv_usec - b.tv_usec })

-- The host's time and the offset as it stands; the pointer for the answer is not null.
pub get_concentrator_time : TimeVal → TimeVal → ℕ
get_concentrator_time unix_time offset =
    let local_timeval = timer_sub unix_time offset in
    u32 (local_timeval.tv_sec * 1000000 + local_timeval.tv_usec)

-- One turn of `thread_timersync`, with the host's time and the counter that it reads: the new
-- offset and the drift.
pub sync_turn : TimeVal → ℕ → TimeVal → TimeVal × TimeVal
sync_turn unix_timeval sx130x_timecount offset_previous =
    let sec = sx130x_timecount / 1000000 in
    let concentrator_timeval : TimeVal = record {
      tv_sec = sec;
      tv_usec = sx130x_timecount - sec * 1000000;
    } in
    let offset = timer_sub unix_timeval concentrator_timeval in
    (offset, timer_sub offset offset_previous)

-- The turns that a run makes with what it reads at each: the offset that they leave.
pub thread_timersync : List (TimeVal × ℕ) → TimeVal → TimeVal
thread_timersync [] offset = offset
thread_timersync ((unix_timeval, count) ∷ readings) offset =
    thread_timersync readings ((sync_turn unix_timeval count offset).0)
