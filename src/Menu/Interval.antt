-- ===== src/Menu/Interval.antt =====
-- getinterval of menu.c. A time_t and a u_int32_t are 32-bit patterns.
use cse4300_project.Prelude.{ℕ, ◌+◌, ◌-◌, ◌*◌, ◌^◌, ◌≤◌, ◌<◌, ◌≡◌, arith, ltb, if◌then◌else◌}
use cse4300_project.Kernel.{int32}

-- Seconds and nanoseconds.
pub record Time : Type 0 where
  pub secs : ℕ
  pub nsecs : ℕ

-- `a - b` on 32 bits
abbrev pub sub32 : ℕ → ℕ → ℕ
sub32 a b = int32 (a + 2 ^ 32 - b)

unfoldable pub getinterval : Time → Time → Time
getinterval t1 t2 =
    if ltb t2.nsecs t1.nsecs
    then record {
      secs = sub32 (sub32 t2.secs 1) t1.secs;
      nsecs = sub32 (int32 (t2.nsecs + 1_000_000_000)) t1.nsecs;
    }
    else record { secs = sub32 t2.secs t1.secs; nsecs = sub32 t2.nsecs t1.nsecs }

-- A reading of the clock.
pub record IsTime (t : Time) : Type 0 where
  pub secs_fit : t.secs < 2 ^ 32
  pub nsecs_fit : t.nsecs < 1_000_000_000

abbrev pub total_nsecs : Time → ℕ
total_nsecs t = t.secs * 1_000_000_000 + t.nsecs

-- For two readings of the clock in order, the interval is a reading too, and is the difference of
-- the two in nanoseconds: no step wraps.
pub getinterval-sub :
    (t1 t2 : Time)
    → IsTime t1
    → IsTime t2
    → total_nsecs t1 ≤ total_nsecs t2
    → IsTime (getinterval t1 t2)
      × (total_nsecs (getinterval t1 t2) + total_nsecs t1 ≡ total_nsecs t2)
unfolding getinterval
getinterval-sub t1 t2 v1 v2 h = ground arith
