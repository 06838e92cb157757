-- ===== src/Boot/Layout.antt =====
-- The page table and the frame list that the loops of vm_bootstrap build.
use os22_crisologo_minichell.Base.{
  ℕ, zero, suc, ◌+◌, ◌-◌, ◌<◌, ◌≤◌, ◌≡◌, refl, sym, ap, ◌∙◌, true, some, List, [], ◌∷◌, ◌++◌, arith,
  ◌==◌, leb, ltb, if◌then◌else◌, Option-cases, length, get_elem?, replicate, count, length-set,
  get_elem?-set_self, get_elem?-set_ne, lt_of_get_elem?, ok, inl, inr,
}
use mathlib.Core.List.{append-nil, append_assoc}
use native.Mathlib.Decide.{ℕ_discrete}
use os22_crisologo_minichell.PageTable.{Entry}
use os22_crisologo_minichell.Vm.{Vm}
use os22_crisologo_minichell.Frames.{add_bottom, add_to_frame_list}
use os22_crisologo_minichell.Frames.Wf.{free_at, free_at-set}
use os22_crisologo_minichell.Frames.Size.{add_bottom_leak}
use os22_crisologo_minichell.Boot.{empty_entry, reserve, reserve_low, reserve_high, fill_from}

length-reserve : (pg : List Entry) (i : ℕ) → length (reserve pg i) ≡ length pg
unfolding reserve
length-reserve pg i = elim (Option-cases (get_elem? pg i)) [
  | inl n ↦ ground (arith, n)
  | inr (e, g) ↦
      ground (arith, g, length-set pg i (record e { page_number = 0; pid = 0; valid = true }))
]

free_at-reserve :
    (pg : List Entry) (i j : ℕ) → free_at (reserve pg i) j ≡ (if i == j then 0 else free_at pg j)
unfolding reserve
free_at-reserve pg i j = elim (Option-cases (get_elem? pg i)) [
  | inl n ↦ ground (arith, n)
  | inr (e, g) ↦ ground (
    arith,
    g,
    free_at-set pg i j (record e { page_number = 0; pid = 0; valid = true })
        (lt_of_get_elem? pg i g),
  )
]

pub length-reserve_low : (n : ℕ) (pg : List Entry) → length (reserve_low n pg) ≡ length pg
unfolding reserve_low
length-reserve_low zero pg = refl
length-reserve_low (suc n) pg = length-reserve (reserve_low n pg) n ∙ length-reserve_low n pg

pub free_at-reserve_low :
    (n : ℕ) (pg : List Entry) (j : ℕ)
    → free_at (reserve_low n pg) j ≡ (if ltb j n then 0 else free_at pg j)
unfolding reserve_low
free_at-reserve_low zero pg j = ground arith
free_at-reserve_low (suc n) pg j =
    ground (arith, free_at-reserve (reserve_low n pg) n j, free_at-reserve_low n pg j)

pub length-reserve_high : (k n : ℕ) (pg : List Entry) → length (reserve_high k n pg) ≡ length pg
unfolding reserve_high
length-reserve_high k zero pg = refl
length-reserve_high k (suc n) pg =
    length-reserve (reserve_high k n pg) (k - 1 - n) ∙ length-reserve_high k n pg

pub free_at-reserve_high :
    (k n : ℕ) (pg : List Entry) (j : ℕ)
    → n ≤ k
    → j < k
    → free_at (reserve_high k n pg) j ≡ (if leb (k - n) j then 0 else free_at pg j)
unfolding reserve_high
free_at-reserve_high k zero pg j h l = ground arith
free_at-reserve_high k (suc n) pg j h l = ground (
  arith,
  free_at-reserve (reserve_high k n pg) (k - 1 - n) j,
  free_at-reserve_high k n pg j (omega arith) l,
)

pub length-replicate : (n : ℕ) (e : Entry) → length (replicate n e) ≡ n
length-replicate zero e = refl
length-replicate (suc n) e = ap suc (length-replicate n e)

pub free_at-replicate : (n j : ℕ) → free_at (replicate n empty_entry) j ≡ (if ltb j n then 1 else 0)
free_at-replicate zero j = ground arith
free_at-replicate (suc n) zero = ground arith
free_at-replicate (suc n) (suc j) = ground (arith, free_at-replicate n j)

-- a frame that is free exists
pub free_at-out : (pg : List Entry) (j : ℕ) → length pg ≤ j → free_at pg j ≡ 0
free_at-out [] j h = refl
free_at-out (e ∷ es) zero h = absurd (omega arith)
free_at-out (e ∷ es) (suc j) h = free_at-out es j (omega arith)

-- Entries of page 0 only.
abbrev pub AllZero : List Entry → Type 0
AllZero pg = (j : ℕ) (e : Entry) → get_elem? pg j ≡ some e → e.page_number ≡ 0

AllZero-reserve : (pg : List Entry) (i : ℕ) → AllZero pg → AllZero (reserve pg i)
unfolding reserve
AllZero-reserve pg i z j e g = elim (Option-cases (get_elem? pg i)) [
  | inl n ↦ z j e (ground (arith, n))
  | inr (b, q) ↦ elim (ℕ_discrete i j) [
    | yes p ↦ ground (
      arith,
      q,
      p,
      get_elem?-set_self pg i (record b { page_number = 0; pid = 0; valid = true })
          (lt_of_get_elem? pg i q),
    )
    | no n ↦ z j e (
        ground (
          arith,
          q,
          get_elem?-set_ne pg i j (record b { page_number = 0; pid = 0; valid = true }) n,
        ))
  ]
]

pub AllZero-reserve_low : (n : ℕ) (pg : List Entry) → AllZero pg → AllZero (reserve_low n pg)
unfolding reserve_low
AllZero-reserve_low zero pg z = z
AllZero-reserve_low (suc n) pg z = AllZero-reserve (reserve_low n pg) n (AllZero-reserve_low n pg z)

pub AllZero-reserve_high : (k n : ℕ) (pg : List Entry) → AllZero pg → AllZero (reserve_high k n pg)
unfolding reserve_high
AllZero-reserve_high k zero pg z = z
AllZero-reserve_high k (suc n) pg z =
    AllZero-reserve (reserve_high k n pg) (k - 1 - n) (AllZero-reserve_high k n pg z)

pub AllZero-replicate : (n : ℕ) → AllZero (replicate n empty_entry)
AllZero-replicate zero j e g = ground arith
AllZero-replicate (suc n) zero e g = ground arith
AllZero-replicate (suc n) (suc j) e g = AllZero-replicate n j e g

-- the numbers `i`, ..., `i + n - 1`
unfoldable pub range : ℕ → ℕ → List ℕ
range i zero = []
range i (suc n) = i ∷ range (i + 1) n

pub count-range :
    (i n j : ℕ) → count j (range i n) ≡ (if leb i j then (if ltb j (i + n) then 1 else 0) else 0)
unfolding range
count-range i zero j = ground arith
count-range i (suc n) j = ground (arith, count-range (i + 1) n j)

-- the blocks that the first node on an empty list costs beyond its own
abbrev pub extra : List ℕ → ℕ
extra [] = 1
extra (x ∷ xs) = 0

abbrev pub with_frames : List ℕ → ℕ → Vm → Vm
with_frames fl blocks vm = record vm { frame_list = fl; node_blocks = blocks }

add_bottom-cons :
    (value f : ℕ) (fs : List ℕ) (vm : Vm)
    → vm.frame_list ≡ f ∷ fs
    → 0 < vm.node_blocks
    → value ≤ length vm.pg
    → add_to_frame_list value add_bottom vm
      ≡ ok (0, with_frames ((f ∷ fs) ++ (value ∷ [])) (vm.node_blocks - 1) vm)
unfolding add_to_frame_list
add_bottom-cons value f fs vm h b l = rw h (ground arith)

-- The result of one addToFrameList at the bottom, on any list.
add_bottom-result :
    (value : ℕ) (fl : List ℕ) (vm : Vm)
    → vm.frame_list ≡ fl
    → extra fl < vm.node_blocks
    → value ≤ length vm.pg
    → add_to_frame_list value add_bottom vm
      ≡ ok (0, with_frames (fl ++ (value ∷ [])) (vm.node_blocks - 1 - extra fl) vm)
add_bottom-result value [] vm h b l =
    add_bottom_leak value vm h b l ∙ ap (λ k. ok (0, with_frames (value ∷ []) k vm)) (omega arith)
add_bottom-result value (f ∷ fs) vm h b l =
    add_bottom-cons value f fs vm h (omega arith) l
    ∙ ap (λ k. ok (0, with_frames ((f ∷ fs) ++ (value ∷ [])) k vm)) (omega arith)

extra-append : (fl : List ℕ) (v : ℕ) → extra (fl ++ (v ∷ [])) ≡ 0
extra-append [] v = refl
extra-append (f ∷ fs) v = refl

-- The loop puts its frames behind those of the list, if the heap has a block for each and one more
-- when the list is empty.
pub fill_from-range :
    (i n : ℕ) (vm : Vm)
    → i + n ≤ length vm.pg
    → n + extra vm.frame_list ≤ vm.node_blocks
    → (k : ℕ) × (fill_from i n vm ≡ ok (with_frames (vm.frame_list ++ range i n) k vm))
unfolding fill_from range
fill_from-range i zero vm l b = (
  vm.node_blocks,
  ap (λ fl. ok (with_frames fl vm.node_blocks vm)) (sym (append-nil vm.frame_list)),
)
fill_from-range i (suc n) vm l b =
    let added = add_bottom-result i vm.frame_list vm refl (omega arith) (omega arith) in
    let vm' : Vm =
      with_frames (vm.frame_list ++ (i ∷ [])) (vm.node_blocks - 1 - extra vm.frame_list) vm in
    let (k, e) =
      fill_from-range (i + 1) n vm' (omega arith) (omega (arith, extra-append vm.frame_list i)) in
    (k, rw added (rw append_assoc at e))
