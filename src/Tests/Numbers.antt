-- ===== src/Tests/Numbers.antt =====
-- Byte swaps and times at concrete numbers.
use os22_crisologo_minichell.Base.{◌*◌, ◌+◌, ◌^◌, ◌≡◌, arith}
use os22_crisologo_minichell.Bytes.{bswap64}
use os22_crisologo_minichell.Bytes.Swaps.{bswap64-forgets}
use os22_crisologo_minichell.Time.{Timespec, timespec_add, timespec_sub}
use os22_crisologo_minichell.Time.Laws.{IsTime, timespec_add-sub}

bswap64-forgets_example : bswap64 (7 * 2 ^ 48 + 5 * 2 ^ 40 + 3) ≡ bswap64 (7 * 2 ^ 48 + 3)
bswap64-forgets_example = bswap64-forgets 7 5 3 (omega arith) (omega arith)

abbrev later : Timespec
later = record { tv_sec = 5; tv_nsec = 300 }

abbrev earlier : Timespec
earlier = record { tv_sec = 3; tv_nsec = 999999999 }

timespec_add-sub_example :
    IsTime (timespec_add later earlier)
    × IsTime (timespec_sub later earlier)
    × (timespec_add (timespec_sub later earlier) earlier ≡ later)
    × (timespec_sub (timespec_add later earlier) earlier ≡ later)
timespec_add-sub_example =
    timespec_add-sub later earlier (record { secs = omega arith; nanos = omega arith })
      (record { secs = omega arith; nanos = omega arith })
