-- ===== src/Frames/Size.antt =====
-- check_free_frame, and the requests that it lets through.
use os22_crisologo_minichell.Base.{
  ap, length-set, get_elem?-set_ne, lt_of_get_elem?, add32, ℕ, zero, suc, ◌+◌, ◌-◌, ◌<◌, ◌≤◌, ◌≡◌,
  refl, ◌∙◌, inl, inr, Option-cases, true, false, List, [], ◌∷◌, arith, length, ok, get_elem?,
  fault, set, some, ◌≢◌, count,
}
use os22_crisologo_minichell.Vm.{Vm}
use os22_crisologo_minichell.Frames.Wf.{IsWf}
use os22_crisologo_minichell.Frames.Alloc.{head_entry}
use os22_crisologo_minichell.Frames.{
  add_bottom, add_to_frame_list, check_loop, check_free_frame, Entry, take_frames, taken,
  alloc_kpages,
}

check_loop-false : (rounds size : ℕ) → check_loop false rounds size ≡ rounds + size
unfolding check_loop
check_loop-false zero size = omega arith
check_loop-false (suc r) size = check_loop-false r (size + 1) ∙ omega arith

check_loop-true : (rounds size : ℕ) → check_loop true rounds size ≡ size
unfolding check_loop
check_loop-true zero size = refl
check_loop-true (suc r) size = refl

-- The size that check_free_frame reports for a request of at least one frame: 0 for an empty list, 1
-- for a single node, and the whole request, however large, for any longer list.
pub check_free_frame_lem :
    (npages f g : ℕ) (fs : List ℕ)
    → 0 < npages
    → (check_free_frame npages [] ≡ 0)
      × (check_free_frame npages (f ∷ []) ≡ 1)
      × (check_free_frame npages (f ∷ g ∷ fs) ≡ npages)
unfolding check_free_frame
check_free_frame_lem npages f g fs h =
    (refl, check_loop-true (npages - 1) 1, check_loop-false (npages - 1) 1 ∙ omega arith)

-- addToFrameList at the bottom of an empty list takes two blocks from the kernel heap for its one
-- node.
pub add_bottom_leak :
    (value : ℕ) (vm : Vm)
    → vm.frame_list ≡ []
    → 1 < vm.node_blocks
    → value ≤ length vm.pg
    → add_to_frame_list value add_bottom vm
      ≡ ok (0, record vm { frame_list = value ∷ []; node_blocks = vm.node_blocks - 2 })
unfolding add_to_frame_list
add_bottom_leak value vm h b l = rw h (ground arith)

module _ {vm : Vm} {f g : ℕ} (w : IsWf vm) (h : vm.frame_list ≡ f ∷ g ∷ []) where
  second_entry :
      (d : Entry) → (e : Entry) × (get_elem? (set vm.pg f d) g ≡ some e) × (e.valid ≡ false)
  second_entry d = elim (Option-cases (get_elem? vm.pg g)) [
    | inl n ↦ absurd (ground (arith, w.listed g, ap (count g) h))
    | inr (e, q) ↦
        (e, get_elem?-set_ne vm.pg f g d apart ∙ q, ground (arith, w.listed g, ap (count g) h))
  ]
    where
      apart : f ≢ g
      apart p = ground (arith, p, w.listed g, ap (count g) h)

  -- three rounds on a list of two frames
  take_three : (k : ℕ) → take_frames (suc (suc (suc k))) 0 vm ≡ fault
  unfolding take_frames
  take_three k =
      let (d, p, u, z) = head_entry w h in
      let (e, q, v) = second_entry (taken d (add32 vm.pt_counter 1)) in
      let lf : f < length vm.pg = lt_of_get_elem? vm.pg f p in
      let lg : g < length vm.pg = omega (
        arith,
        lt_of_get_elem? (set vm.pg f (taken d (add32 vm.pt_counter 1))) g q,
        length-set vm.pg f (taken d (add32 vm.pt_counter 1)),
      ) in
      rw h (
        ground (
          arith,
          p,
          u,
          q,
          v,
          lf,
          lg,
          length-set vm.pg f (taken d (add32 vm.pt_counter 1)),
          w.usable f,
          w.small,
          ap (count f) h,
        ))

alloc_kpages-fault :
    (n : ℕ) (vm : Vm)
    → n < 10
    → 0 < n
    → vm.started ≡ true
    → check_free_frame n vm.frame_list ≡ n
    → take_frames n 0 vm ≡ fault
    → alloc_kpages n vm ≡ fault
unfolding alloc_kpages
alloc_kpages-fault n vm l pos s c t = ground (arith, c, t, s)

-- In a well formed state with exactly two free frames, alloc_kpages of three to nine frames passes
-- the size test and then reads through the NULL end of the frame list.
pub alloc_kpages-short :
    {vm : Vm} {f g : ℕ} (k : ℕ)
    → IsWf vm
    → vm.frame_list ≡ f ∷ g ∷ []
    → suc (suc (suc k)) < 10
    → alloc_kpages (suc (suc (suc k))) vm ≡ fault
alloc_kpages-short {vm} {f} {g} k w h l =
    alloc_kpages-fault (suc (suc (suc k))) vm l (omega arith) w.started
      (ap (check_free_frame (suc (suc (suc k)))) h
        ∙ (check_free_frame_lem (suc (suc (suc k))) f g [] (omega arith)).2)
      (take_three w h k)
