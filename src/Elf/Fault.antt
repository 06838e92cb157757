-- ===== src/Elf/Fault.antt =====
-- vm_fault over load_elf as it is.
use os22_crisologo_minichell.Base.{
  ℕ, ◌≡◌, Option, none, some, ok, fault, ◌>>=◌, inl, inr, Ensures, Option-cases, Ensures-bind,
  Ensures-ok,
}
use os22_crisologo_minichell.Vm.{Vm}
use os22_crisologo_minichell.Elf.{ElfFile, Loaded, load_elf}
use os22_crisologo_minichell.Fault.{Process, FaultType, fault_write, Answer, vm_fault}
use os22_crisologo_minichell.Fault.Tally.{Tally}
use os22_crisologo_minichell.Fault.Served.{Done, vm_fault-Done}
use os22_crisologo_minichell.Elf.Keeps.{ReadKeeps, load_elf-keeps}

-- The process whose load_elf is that of syscall/loadelf.c, at one page of the file.
abbrev pub with_elf : Process → ElfFile → Process
with_elf p file = record p {
  load = λ start vm. elim p.space [
    | none ↦ fault
    | some space ↦
        load_elf p.pid file start 1 space vm >>= λ (entry, loaded). ok (loaded.0, loaded.2)
  ];
}

load-keeps :
    (p : Process) (file : ElfFile)
    → ((n : ℕ) → ReadKeeps (Tally n) file)
    → (start : ℕ) (vm : Vm) (n : ℕ) → Tally n vm.stats
    → Ensures (λ (x : ℕ × Vm). Tally n x.1.stats) ((with_elf p file).load start vm)
load-keeps p file reads start vm n t = elim (Option-cases p.space) [
  | inl z ↦ rw z tt
  | inr (space, z) ↦ rw z (
      Ensures-bind (λ (r : Option ℕ × Loaded). Tally n r.1.2.stats)
        (λ (x : ℕ × Vm). Tally n x.1.stats) (load_elf p.pid file start 1 space vm) _
        (load_elf-keeps (Tally n) p.pid file (reads n) start 1 space vm t) (λ r k. k))
]

-- vm_fault with load_elf as it is: if the sums of print_vm_stat hold with `d` faults not served,
-- reading into user memory keeps them, and for a write fault the swap file takes the page written to
-- it, then they hold after vm_fault with `d` or `d + 1` faults not served, and with `d` if it returns 0.
pub vm_fault-load_elf :
    (d : ℕ) (p : Process) (file : ElfFile) (kind : FaultType) (addr : ℕ) (vm : Vm) {r : Answer × Vm}
    → ((n : ℕ) → ReadKeeps (Tally n) file)
    → (kind ≡ fault_write → p.io_out.transfer_result ≡ 0)
    → vm_fault (with_elf p file) kind addr vm ≡ ok r
    → Tally d vm.stats
    → Done d r
vm_fault-load_elf d p file kind addr vm reads safe h t =
    vm_fault-Done d (with_elf p file) kind addr vm
      (λ start v r n e k.
        Ensures-ok (λ (x : ℕ × Vm). Tally n x.1.stats) _ (load-keeps p file reads start v n k) e)
      safe h t
