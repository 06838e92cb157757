-- ===== src/Swap/Keeps.antt =====
-- swapOut and swapIn do not touch the counters of the statistics.
use os22_crisologo_minichell.Base.{ℕ, ◌≡◌, arith, ok, >>=-eq-ok}
use os22_crisologo_minichell.Vm.{SwapSlot, Vm}
use os22_crisologo_minichell.Frames.{alloc_kpages}
use os22_crisologo_minichell.Frames.Keeps.{free_kpages-Keeps, alloc_kpages-Keeps}
use os22_crisologo_minichell.Swap.{Io, record_out, swap_out, map_in, swap_in}

record_out-stats :
    (a index : ℕ) (s : SwapSlot) (vm : Vm) {r : ℕ × Vm}
    → record_out a index s vm ≡ ok r
    → r.1.stats ≡ vm.stats
unfolding record_out
record_out-stats a index s vm h = grind (arith, free_kpages-Keeps)

pub swap_out-stats :
    (io : Io) (a : ℕ) (vm : Vm) {r : ℕ × Vm} → swap_out io a vm ≡ ok r → r.1.stats ≡ vm.stats
unfolding swap_out
swap_out-stats io a vm h = grind (arith, free_kpages-Keeps)

map_in-stats :
    (io : Io) (a index : ℕ) (s : SwapSlot) (vm : Vm) {r : ℕ × Vm}
    → map_in io a index s vm ≡ ok r
    → r.1.stats ≡ vm.stats
unfolding map_in
map_in-stats io a index s vm h = ground arith

pub swap_in-stats :
    (io : Io) (index : ℕ) (vm : Vm) {r : ℕ × Vm} → swap_in io index vm ≡ ok r → r.1.stats ≡ vm.stats
unfolding swap_in
swap_in-stats io index vm h =
    let (x, e, q) = >>=-eq-ok (alloc_kpages 1 vm) _ h in
    let k = alloc_kpages-Keeps vm e in ground (arith, k.stats, q)
