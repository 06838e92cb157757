-- ===== src/Ram.antt =====
-- arch/mips/vm/ram.c: physical memory before the VM system takes it over.
pub mod Steal
use os22_crisologo_minichell.Base.{ℕ, ◌*◌, ltb, if◌then◌else◌, kseg0, add32, sub32, mul32}

-- `firstpaddr` and `lastpaddr`
pub record Ram : Type 0 where
  pub firstpaddr : ℕ
  pub lastpaddr : ℕ

-- `ramsize` is mainbus_ramsize(), `firstfree` the address that start.S has saved.
unfoldable pub ram_bootstrap : ℕ → ℕ → Ram
ram_bootstrap ramsize firstfree = record {
  firstpaddr = sub32 firstfree kseg0;
  lastpaddr = if ltb (512 * 1024 * 1024) ramsize then 512 * 1024 * 1024 else ramsize;
}

unfoldable pub ram_stealmem : ℕ → Ram → ℕ × Ram
ram_stealmem npages r =
    if ltb r.lastpaddr (add32 r.firstpaddr (mul32 npages 4096))
    then (0, r)
    else (r.firstpaddr, record r { firstpaddr = add32 r.firstpaddr (mul32 npages 4096) })

unfoldable pub ram_getsize : Ram → ℕ
ram_getsize r = r.lastpaddr

unfoldable pub ram_getfirstfree : Ram → ℕ × Ram
ram_getfirstfree r = (r.firstpaddr, record { firstpaddr = 0; lastpaddr = 0 })
