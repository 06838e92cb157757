-- ===== src/Space/Destroy.antt =====
-- as_destroy gives back every frame of the process.
use os22_crisologo_minichell.Base.{
  ℕ, zero, suc, ◌+◌, ◌*◌, ◌<◌, ◌≤◌, ◌≡◌, sym, subst, ◌∙◌, inl, inr, true, false, some, arith,
  Bool-cases, length, get_elem?, length-set, get_elem?-set_self, get_elem?-set_ne, lt_of_get_elem?,
  get_elem?-of_lt, kseg0, add32, mul32, ok, >>=-eq-ok,
}
use native.Mathlib.Decide.{ℕ_discrete}
use os22_crisologo_minichell.PageTable.{Entry}
use os22_crisologo_minichell.Tlb.{invalidate_tlb}
use os22_crisologo_minichell.Tlb.Count
use os22_crisologo_minichell.Tlb.Translate.{Coherent, invalidate_tlb-Coherent}
use os22_crisologo_minichell.Vm.{Vm}
use os22_crisologo_minichell.Frames.{freed, free_kpages}
use os22_crisologo_minichell.Frames.Wf.{IsWf}
use os22_crisologo_minichell.Frames.Free.{after_free, free_kpages-after_free, after_free-IsWf}
use os22_crisologo_minichell.Space.{is_owned, destroy_from, as_destroy}

-- The frames of a process can be freed: none is frame 0 or holds the page table.
abbrev pub OwnedUsable : ℕ → Vm → Type 0
OwnedUsable pid vm =
    (j : ℕ) (e : Entry)
    → get_elem? vm.pg j ≡ some e
    → is_owned pid e ≡ true
    → (0 < j) × (j * 4096 < vm.pg_base)

-- What the loop from the index `i` on has done.
record Destroyed (pid i : ℕ) (vm vm' : Vm) : Type 0 where
  wf : IsWf vm'
  gone : (j : ℕ) (e : Entry) → i ≤ j → get_elem? vm'.pg j ≡ some e → is_owned pid e ≡ false
  others :
      (j : ℕ) (e : Entry)
      → get_elem? vm.pg j ≡ some e
      → is_owned pid e ≡ false
      → get_elem? vm'.pg j ≡ some e

module _ (pid : ℕ) where
  after_free-usable :
      (vm : Vm) (i : ℕ) (e : Entry)
      → i < length vm.pg
      → OwnedUsable pid vm
      → OwnedUsable pid (after_free i e vm)
  after_free-usable vm i e l u j b g o = elim (ℕ_discrete i j) [
    | yes p ↦ absurd (ground (arith, p, get_elem?-set_self vm.pg i (freed e) l))
    | no n ↦ u j b (sym (get_elem?-set_ne vm.pg i j (freed e) n) ∙ g) o
  ]

  -- The entry `i` is not owned any more, and then the rest of the loop runs.
  step :
      {vm vm' : Vm} (i : ℕ) (e : Entry)
      → get_elem? vm.pg i ≡ some e
      → is_owned pid e ≡ false
      → Destroyed pid (i + 1) vm vm'
      → Destroyed pid i vm vm'
  step {vm} {vm'} i e g o r = record {
    wf = r.wf;
    gone = λ j b l q. elim (ℕ_discrete i j) [
      | yes p ↦ ground (arith, r.others i e g o)
      | no n ↦ r.gone j b (omega arith) q
    ];
    others = r.others;
  }

  owned-valid : (e : Entry) → is_owned pid e ≡ true → e.valid ≡ true
  owned-valid e o = ground arith

  destroy_from-Destroyed :
      (i n : ℕ) (vm : Vm) {vm' : Vm}
      → i + n ≡ length vm.pg
      → IsWf vm
      → OwnedUsable pid vm
      → n ≤ vm.node_blocks
      → destroy_from pid i n vm ≡ ok vm'
      → Destroyed pid i vm vm'
  unfolding destroy_from
  destroy_from-Destroyed i zero vm {vm'} l w u room h = record {
    wf = subst IsWf (ground arith) w;
    gone = λ j b q g. absurd (ground (arith, lt_of_get_elem? vm.pg j {a = b} (ground arith)));
    others = λ j b g o. ground arith;
  }
  destroy_from-Destroyed i (suc n) vm {vm'} l w u room h =
      let (e, g) = get_elem?-of_lt vm.pg i (omega arith) in
      elim (Bool-cases (is_owned pid e)) [
        | inr o ↦ step i e g o (
            destroy_from-Destroyed (i + 1) n vm (omega arith) w u (omega (arith, room))
              (ground (arith, g, o)))
        | inl o ↦
            let a : add32 (mul32 i 4096) kseg0 ≡ kseg0 + i * 4096 = omega (arith, w.small) in
            let (x, q, r) =
              >>=-eq-ok (free_kpages (add32 (mul32 i 4096) kseg0) vm) (destroy_from pid (i + 1) n)
                {r = vm'} (ground (arith, g, o)) in
            let v = owned-valid e o in
            let f = free_kpages-after_free i w g v (omega (arith, room)) in
            let p : x ≡ after_free i e vm = cc (f, subst (λ y. free_kpages y vm ≡ ok x) a q) in
            let done =
              destroy_from-Destroyed (i + 1) n (after_free i e vm)
                (omega (arith, length-set vm.pg i (freed e)))
                (after_free-IsWf i w g v ((u i e g o).0) ((u i e g o).1))
                (after_free-usable vm i e (omega arith) u) (omega (arith, room))
                (subst (λ y. destroy_from pid (i + 1) n y ≡ ok vm') p r) in
            freed_step i e g o done
      ]
    where
      freed_step :
          (i : ℕ) (e : Entry)
          → get_elem? vm.pg i ≡ some e
          → is_owned pid e ≡ true
          → Destroyed pid (i + 1) (after_free i e vm) vm'
          → Destroyed pid i vm vm'
      freed_step i e g o r =
          let r' =
            step i (freed e) (get_elem?-set_self vm.pg i (freed e) (lt_of_get_elem? vm.pg i g))
              (ground arith) r in
          record {
            wf = r'.wf;
            gone = r'.gone;
            others = λ j b q f. elim (ℕ_discrete i j) [
              | yes p ↦ absurd (ground (arith, p))
              | no k ↦ r'.others j b (get_elem?-set_ne vm.pg i j (freed e) k ∙ q) f
            ];
          }

-- From a well formed state in which no frame of the process is frame 0 or holds the page table,
-- and in which the heap has a block left for a list node for every frame of the page table, so
-- that no frame has to be taken for nodes, a successful as_destroy leaves a well formed state
-- without any valid entry of the process. Every entry that was not a valid one of the process is
-- as before, and the TLB agrees with the page table of any process.
pub as_destroy_lem :
    (pid : ℕ) {vm vm' : Vm}
    → IsWf vm
    → OwnedUsable pid vm
    → length vm.pg ≤ vm.node_blocks
    → as_destroy pid vm ≡ ok vm'
    → IsWf vm'
      × ((j : ℕ) (e : Entry) → get_elem? vm'.pg j ≡ some e → is_owned pid e ≡ false)
      × ((j : ℕ) (e : Entry)
          → get_elem? vm.pg j ≡ some e
          → is_owned pid e ≡ false
          → get_elem? vm'.pg j ≡ some e)
      × ((q : ℕ) → Coherent vm'.pg q vm'.tlb.slots)
unfolding as_destroy
as_destroy_lem pid {vm} {vm'} w u room h =
    let (x, q, r) = >>=-eq-ok (destroy_from pid 0 (length vm.pg) vm) _ h in
    let d = destroy_from-Destroyed pid 0 (length vm.pg) vm (omega arith) w u room q in
    subst
      (λ (y : Vm).
        IsWf y
        × ((j : ℕ) (e : Entry) → get_elem? y.pg j ≡ some e → is_owned pid e ≡ false)
        × ((j : ℕ) (e : Entry)
            → get_elem? vm.pg j ≡ some e
            → is_owned pid e ≡ false
            → get_elem? y.pg j ≡ some e)
        × ((q : ℕ) → Coherent y.pg q y.tlb.slots))
      {x = record x { tlb = invalidate_tlb x.tlb }} (ground arith)
      (
        record {
          started = d.wf.started;
          small = d.wf.small;
          listed = d.wf.listed;
          usable = d.wf.usable;
          user = d.wf.user;
          tlb = (Count.invalidate_tlb-IsWf x.tlb d.wf.tlb.pointer).0;
        },
        λ j e g. d.gone j e (omega arith) g,
        d.others,
        λ k. invalidate_tlb-Coherent x.pg k x.tlb,
      )
