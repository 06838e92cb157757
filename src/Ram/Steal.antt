-- ===== src/Ram/Steal.antt =====
-- ram_stealmem hands out each byte at most once.
use os22_crisologo_minichell.Base.{
  ℕ, ◌+◌, ◌*◌, ◌^◌, ◌<◌, ◌≤◌, ◌≡◌, ◌⊎◌, inl, inr, arith, kseg0, Bool-cases, ltb,
}
use os22_crisologo_minichell.Ram.{Ram, ram_bootstrap, ram_stealmem}

-- Memory that is left starts above 0 and ends within 512 MB.
pub record IsWf (r : Ram) : Type 0 where
  pub above_zero : 0 < r.firstpaddr
  pub ordered : r.firstpaddr ≤ r.lastpaddr
  pub bounded : r.lastpaddr ≤ 512 * 1024 * 1024

-- ram_bootstrap is well formed if the kernel image ends within memory and within 512 MB.
pub ram_bootstrap-IsWf :
    (ramsize firstfree : ℕ)
    → kseg0 < firstfree
    → firstfree ≤ kseg0 + ramsize
    → firstfree ≤ kseg0 + 512 * 1024 * 1024
    → IsWf (ram_bootstrap ramsize firstfree)
unfolding ram_bootstrap
ram_bootstrap-IsWf ramsize firstfree h k l = record {
  above_zero = omega arith;
  ordered = ground arith;
  bounded = ground arith;
}

-- From well formed memory, ram_stealmem of fewer than 2 ^ 17 pages either returns 0 and changes
-- nothing, because the pages do not fit, or returns the first byte left, and what is left then
-- starts just above the pages and ends where it ended.
pub ram_stealmem_lem :
    (npages : ℕ) (r : Ram)
    → npages < 2 ^ 17
    → IsWf r
    → ((r.lastpaddr < r.firstpaddr + npages * 4096) × (ram_stealmem npages r ≡ (0, r)))
      ⊎ ((r.firstpaddr + npages * 4096 ≤ r.lastpaddr)
          × (ram_stealmem npages r
              ≡ (r.firstpaddr, record r { firstpaddr = r.firstpaddr + npages * 4096 }))
          × IsWf (ram_stealmem npages r).1)
unfolding ram_stealmem
ram_stealmem_lem npages r h w = elim (Bool-cases (ltb r.lastpaddr (r.firstpaddr + npages * 4096))) [
  | inl e ↦ inl (ground arith, ground arith)
  | inr e ↦ inr (
    ground arith,
    ground arith,
    record { above_zero = ground arith; ordered = ground arith; bounded = ground arith },
  )
]
