-- ===== src/TimerSync/Tests.antt =====
-- The theorem on the clock at a counter that rolls over.
use dragino_fwd_src_lps8_mqt.Base.{◌+◌, ◌%◌, ◌^◌, ◌≡◌, [], ◌∷◌, ◌++◌, arith}
use dragino_fwd_src_lps8_mqt.TimerSync.{TimeVal, get_concentrator_time, thread_timersync}
use dragino_fwd_src_lps8_mqt.TimerSync.Clock.{get_concentrator_time_later}

abbrev earlier : TimeVal
earlier = record { tv_sec = 1700000000; tv_usec = 999990 }

abbrev now : TimeVal
now = record { tv_sec = 1700000001; tv_usec = 10 }

abbrev start : TimeVal
start = record { tv_sec = 0; tv_usec = 0 }

get_concentrator_time_later_example :
    get_concentrator_time now (thread_timersync ([] ++ ((earlier, 4294967290) ∷ [])) start)
    ≡ (4294967290 + 20) % 2 ^ 32
get_concentrator_time_later_example =
    get_concentrator_time_later [] start earlier now 4294967290 20 (omega arith) (omega arith)
      (omega arith) (omega arith)
