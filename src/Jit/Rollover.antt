-- ===== src/Jit/Rollover.antt =====
-- What the collision test says of real time, which the 32-bit counter only shows modulo 2^32.
use dragino_fwd_src_lps8_mqt.Base.{ℕ, ◌+◌, ◌-◌, ◌%◌, ◌^◌, ◌≤◌, ◌<◌, ◌≡◌, false, arith, ◌↔◌, sub32}
use dragino_fwd_src_lps8_mqt.Jit.Queue.{jit_collision_test}

-- For two instants less than half a period apart, and delays that fit, the test is negative
-- exactly when the earlier packet's end, the margin of 1000 microseconds and the later packet's
-- pre-delay all fit between them, also where the counter rolls over in between.
pub jit_collision_test_real_time :
    (time1 pre1 post1 time2 pre2 post2 : ℕ)
    → time1 ≤ time2
    → time2 - time1 < 2 ^ 31
    → pre1 + post2 < 2 ^ 31 - 1000
    → pre2 + post1 < 2 ^ 31 - 1000
    → (jit_collision_test (time1 % 2 ^ 32) pre1 post1 (time2 % 2 ^ 32) pre2 post2 ≡ false)
      ↔ (time1 + post1 + 1000 + pre2 < time2)
unfolding jit_collision_test
jit_collision_test_real_time time1 pre1 post1 time2 pre2 post2 h k l m =
    (λ e. ground arith, λ e. ground arith)

-- The test does not change when every count is moved on by the same time.
pub jit_collision_test_shift :
    (c p1 pre1 post1 p2 pre2 post2 : ℕ)
    → jit_collision_test ((p1 + c) % 2 ^ 32) pre1 post1 ((p2 + c) % 2 ^ 32) pre2 post2
      ≡ jit_collision_test p1 pre1 post1 p2 pre2 post2
unfolding jit_collision_test
jit_collision_test_shift c p1 pre1 post1 p2 pre2 post2 = rw (shift p1 p2, shift p2 p1)
  where
    shift : (a b : ℕ) → sub32 ((a + c) % 2 ^ 32) ((b + c) % 2 ^ 32) ≡ sub32 a b
    shift a b = omega arith
