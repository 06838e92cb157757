-- ===== src/Time.antt =====
-- lib/time.c: sums and differences of times. The seconds are a 64-bit number; the nanoseconds of a
-- time lie below 1000000000, so that no sum of two passes 31 bits.
pub mod Laws
use os22_crisologo_minichell.Base.{ℕ, ◌+◌, ◌-◌, ◌%◌, ◌^◌, leb, ltb, if◌then◌else◌}

pub record Timespec : Type 0 where
  pub tv_sec : ℕ
  pub tv_nsec : ℕ

unfoldable pub timespec_add : Timespec → Timespec → Timespec
timespec_add ts1 ts2 =
    if leb 1000000000 (ts1.tv_nsec + ts2.tv_nsec)
    then record {
      tv_sec = (ts1.tv_sec + ts2.tv_sec + 1) % 2 ^ 64;
      tv_nsec = ts1.tv_nsec + ts2.tv_nsec - 1000000000;
    }
    else record { tv_sec = (ts1.tv_sec + ts2.tv_sec) % 2 ^ 64; tv_nsec = ts1.tv_nsec + ts2.tv_nsec }

unfoldable pub timespec_sub : Timespec → Timespec → Timespec
timespec_sub ts1 ts2 =
    if ltb ts1.tv_nsec ts2.tv_nsec
    then record {
      tv_sec = (ts1.tv_sec + 2 ^ 64 - 1 + 2 ^ 64 - ts2.tv_sec) % 2 ^ 64;
      tv_nsec = ts1.tv_nsec + 1000000000 - ts2.tv_nsec;
    }
    else record {
      tv_sec = (ts1.tv_sec + 2 ^ 64 - ts2.tv_sec) % 2 ^ 64;
      tv_nsec = ts1.tv_nsec - ts2.tv_nsec;
    }
