-- ===== src/TimerSync/Clock.antt =====
-- The time that the host derives from the offset is the time of the counter.
use dragino_fwd_src_lps8_mqt.Base.{
  ℕ, ◌+◌, ◌-◌, ◌*◌, ◌/◌, ◌%◌, ◌^◌, ◌<◌, ◌≡◌, refl, List, [], ◌∷◌, ◌++◌, arith,
}
use dragino_fwd_src_lps8_mqt.TimerSync.{
  TimeVal, timer_sub, get_concentrator_time, sync_turn, thread_timersync,
}

-- A difference in microseconds, in the numbers of the counter.
timer_sub_us :
    (a b : TimeVal)
    → a.tv_usec < 1000000
    → b.tv_usec < 1000000
    → ((timer_sub a b).tv_usec < 1000000)
      × (((timer_sub a b).tv_sec * 1000000
              + (timer_sub a b).tv_usec
              + (b.tv_sec * 1000000 + b.tv_usec))
            % 2 ^ 32
          ≡ (a.tv_sec * 1000000 + a.tv_usec) % 2 ^ 32)
unfolding timer_sub
timer_sub_us a b ha hb = (ground arith, ground arith)

last_turn :
    (readings : List (TimeVal × ℕ)) (t : TimeVal) (count : ℕ) (offset : TimeVal)
    → thread_timersync (readings ++ ((t, count) ∷ [])) offset ≡ (sync_turn t count offset).0
unfolding thread_timersync sync_turn
last_turn [] t count offset = refl
last_turn (r ∷ readings) t count offset = last_turn readings t count ((sync_turn r.0 r.1 offset).0)

-- After any turns of the thread of which the last read the counter `count` at the host's time `t`, get_concentrator_time at a host's time that is `d` microseconds later answers the counter moved on by `d`, wherever it rolls over.
pub get_concentrator_time_later :
    (readings : List (TimeVal × ℕ)) (offset t later : TimeVal) (count d : ℕ)
    → t.tv_usec < 1000000
    → later.tv_usec < 1000000
    → count < 2 ^ 32
    → later.tv_sec * 1000000 + later.tv_usec ≡ t.tv_sec * 1000000 + t.tv_usec + d
    → get_concentrator_time later (thread_timersync (readings ++ ((t, count) ∷ [])) offset)
      ≡ (count + d) % 2 ^ 32
unfolding get_concentrator_time sync_turn
get_concentrator_time_later readings offset t later count d ht hl hc e =
    let counter : TimeVal = record {
      tv_sec = count / 1000000;
      tv_usec = count - count / 1000000 * 1000000;
    } in
    let back = timer_sub_us t counter ht (omega arith) in
    let front = timer_sub_us later (timer_sub t counter) hl back.0 in
    rw (last_turn readings t count offset) (omega (arith, back, front.1, e))
