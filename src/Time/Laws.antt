-- ===== src/Time/Laws.antt =====
-- timespec_add and timespec_sub undo each other.
use os22_crisologo_minichell.Base.{◌^◌, ◌<◌, ◌≡◌, arith}
use os22_crisologo_minichell.Time.{Timespec, timespec_add, timespec_sub}

-- A time whose seconds are a 64-bit number and whose nanoseconds are less than a second.
pub record IsTime (t : Timespec) : Type 0 where
  pub secs : t.tv_sec < 2 ^ 64
  pub nanos : t.tv_nsec < 1000000000

-- On times, timespec_add and timespec_sub give times, and each undoes the other.
pub timespec_add-sub :
    (a b : Timespec)
    → IsTime a
    → IsTime b
    → IsTime (timespec_add a b)
      × IsTime (timespec_sub a b)
      × (timespec_add (timespec_sub a b) b ≡ a)
      × (timespec_sub (timespec_add a b) b ≡ a)
unfolding timespec_add timespec_sub
timespec_add-sub a b p q = (
  record { secs = ground arith; nanos = ground arith },
  record { secs = ground arith; nanos = ground arith },
  ground (arith, p.secs, p.nanos, q.secs, q.nanos),
  ground (arith, p.secs, p.nanos, q.secs, q.nanos),
)
