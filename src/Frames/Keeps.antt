-- ===== src/Frames/Keeps.antt =====
-- What the frame operations leave alone: the counters of the statistics, and the swap table.
use native.Mathlib.Decide.{ℕ_discrete}
use os22_crisologo_minichell.PageTable.{Entry}
use os22_crisologo_minichell.Frames.{freed, tlb_without}
use os22_crisologo_minichell.Vm.{zero_fill}
use os22_crisologo_minichell.Base.{
  kassert, ltb, length, Option-cases, subst, none, some, get_elem?, fault, panic, not, ◌>>=◌, ◌==◌,
  ◌/◌, Bool-cases, inl, inr, >>=-eq-ok, set, sub32, kseg0, page_align, refl, ◌∙◌, true,
  if◌then◌else◌, ℕ, ◌≡◌, List, [], ◌∷◌, arith, ok,
}
use os22_crisologo_minichell.Vm.{Vm}
use os22_crisologo_minichell.Frames.{
  free_frame, free_kpages, alloc_kpages, take_frame, new_node_page, kmalloc_node, add_first,
}

-- The parts of the state that no frame operation touches.
pub record Keeps (vm vm' : Vm) : Type 0 where
  pub stats : vm'.stats ≡ vm.stats
  pub sf_list : vm'.sf_list ≡ vm.sf_list
  pub disk : vm'.disk ≡ vm.disk
  pub pg_base : vm'.pg_base ≡ vm.pg_base
  pub started : vm'.started ≡ vm.started

take_frame-Keeps :
    (l : List ℕ) (a : ℕ) (vm : Vm) {r : ℕ × Vm} → take_frame l a vm ≡ ok r → Keeps vm r.1
unfolding take_frame
take_frame-Keeps [] a vm h = cc
take_frame-Keeps (i ∷ l) a vm h = ground arith

pub alloc_kpages-Keeps :
    (vm : Vm) {a : ℕ} {vm' : Vm} → alloc_kpages 1 vm ≡ ok (a, vm') → Keeps vm vm'
unfolding alloc_kpages
alloc_kpages-Keeps vm h = ground arith

Keeps-trans : {vm vm' vm'' : Vm} → Keeps vm vm' → Keeps vm' vm'' → Keeps vm vm''
Keeps-trans k l = record {
  stats = l.stats ∙ k.stats;
  sf_list = l.sf_list ∙ k.sf_list;
  disk = l.disk ∙ k.disk;
  pg_base = l.pg_base ∙ k.pg_base;
  started = l.started ∙ k.started;
}

new_node_page-Keeps : (vm : Vm) {vm' : Vm} → new_node_page vm ≡ ok vm' → Keeps vm vm'
unfolding new_node_page
new_node_page-Keeps vm {vm'} h =
    let ((a, x), q, r) = >>=-eq-ok (alloc_kpages 1 vm) _ h in
    let k = alloc_kpages-Keeps vm q in
    elim (Bool-cases (a == 0)) [
      | inl z ↦ absurd (ground (arith, z, r))
      | inr z ↦ Keeps-trans k (ground (arith, z, r))
    ]

none_left : (vm : Vm) → vm.node_blocks ≡ 0 → new_node_page vm ≡ kmalloc_node vm
unfolding kmalloc_node
none_left vm z = rw z refl

kmalloc_node-Keeps : (vm : Vm) {vm' : Vm} → kmalloc_node vm ≡ ok vm' → Keeps vm vm'
unfolding kmalloc_node
kmalloc_node-Keeps vm {vm'} h = elim (ℕ_discrete vm.node_blocks 0) [
  | yes z ↦ new_node_page-Keeps vm (none_left vm z ∙ h)
  | no n ↦ ground (arith, n)
]

add_first-Keeps : (i : ℕ) (vm : Vm) {r : ℕ × Vm} → add_first i vm ≡ ok r → Keeps vm r.1
unfolding add_first
add_first-Keeps i vm h =
    let (x, q, r) = >>=-eq-ok (kmalloc_node vm) _ h in
    Keeps-trans (kmalloc_node-Keeps vm q) (ground (arith, r))

free_frame-Keeps : (i a : ℕ) (vm : Vm) {vm' : Vm} → free_frame i a vm ≡ ok vm' → Keeps vm vm'
unfolding free_frame
free_frame-Keeps i a vm {vm'} h =
    let (u, q, r) = >>=-eq-ok (kassert (ltb i (length vm.pg))) _ h in
    elim (Option-cases (get_elem? vm.pg i)) [
      | inl e ↦ ground (arith, e, r)
      | inr (e, g) ↦ elim (Bool-cases e.valid) [
        | inr v ↦ ground (arith, g, v, r)
        | inl v ↦
            let (x, b, c) = >>=-eq-ok (add_first i _) (λ y. ok y.1) (freeing e g v r) in
            subst (Keeps vm) (ground (arith, c)) (added e b)
      ]
    ]
  where
    freeing :
        (e : Entry)
        → get_elem? vm.pg i ≡ some e
        → e.valid ≡ true
        → elim (get_elem? vm.pg i) [
          | none ↦ fault
          | some e ↦ if not e.valid then panic else do
            (code, vm) ← add_first i (record vm {
              tlb = tlb_without e vm.tlb;
              pg = set vm.pg i (freed e);
              memory = zero_fill (sub32 a kseg0) 4096 vm.memory;
            })
            ok vm
        ]
          ≡ ok vm'
        → (add_first i (record vm {
          tlb = tlb_without e vm.tlb;
          pg = set vm.pg i (freed e);
          memory = zero_fill (sub32 a kseg0) 4096 vm.memory;
        })
            >>= λ y. ok y.1)
          ≡ ok vm'
    freeing e g v = rw (g, v) (λ h. h)

    added :
        (e : Entry) {r : ℕ × Vm}
        → add_first i (record vm {
          tlb = tlb_without e vm.tlb;
          pg = set vm.pg i (freed e);
          memory = zero_fill (sub32 a kseg0) 4096 vm.memory;
        })
          ≡ ok r
        → Keeps vm r.1
    added e q =
        let k = add_first-Keeps i _ q in
        record {
          stats = k.stats;
          sf_list = k.sf_list;
          disk = k.disk;
          pg_base = k.pg_base;
          started = k.started;
        }

pub free_kpages-Keeps : (a : ℕ) (vm : Vm) {vm' : Vm} → free_kpages a vm ≡ ok vm' → Keeps vm vm'
unfolding free_kpages
free_kpages-Keeps a vm {vm'} h =
    ground (arith, free_frame-Keeps (sub32 (page_align a) kseg0 / 4096) a vm {vm' = vm'})
