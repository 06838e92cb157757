-- ===== src/ThreadList/Refine.antt =====
-- Every operation on the nodes does what it promises of the sequence of threads.
use os22_crisologo_minichell.Base.{
  ℕ, ◌^◌, ◌<◌, ◌≡◌, ap, subst, ◌∙◌, Option, none, some, List, [], ◌∷◌, ◌++◌, length, ok,
}
use mathlib.Core.List.{append_assoc}
use os22_crisologo_minichell.ThreadList.{
  Nodes, ThreadList, Changed, one_less, remove_node, threadlist_addhead, threadlist_addtail,
  threadlist_remhead, threadlist_remtail, threadlist_insertafter, threadlist_insertbefore,
  threadlist_remove,
}
use os22_crisologo_minichell.ThreadList.Chain.{Chain, Chain-from}
use os22_crisologo_minichell.ThreadList.Edit.{removed}
use os22_crisologo_minichell.ThreadList.Sequence.{
  Represents, nodes_of, split_first, split_before, Represents-removed, remove_node-here,
}

-- The operations that change the list.
pub data ListOp : Type 0 where
  add_head add_tail : (t : ℕ) → ListOp
  rem_head rem_tail : ListOp
  insert_after : (onlist t : ℕ) → ListOp
  insert_before : (t onlist : ℕ) → ListOp
  remove : (t : ℕ) → ListOp

unfoldable pub exec : ListOp → ThreadList → Nodes → Changed
exec (add_head t) tl s = threadlist_addhead t tl s
exec (add_tail t) tl s = threadlist_addtail t tl s
exec rem_head tl s = threadlist_remhead tl s
exec rem_tail tl s = threadlist_remtail tl s
exec (insert_after onlist t) tl s = threadlist_insertafter onlist t tl s
exec (insert_before t onlist) tl s = threadlist_insertbefore t onlist tl s
exec (remove t) tl s = threadlist_remove t tl s

-- What an operation promises of the sequence `xs`: the thread that it returns, if any, and the new
-- sequence. `Free t` says that `t` can be put on the list.
pub data Promises (Free : ℕ → Type 0) (xs : List ℕ) : ListOp → Option ℕ → List ℕ → Type 0 where
  in_front : (t : ℕ) → Free t → Promises Free xs (add_head t) none (t ∷ xs)
  at_end : (t : ℕ) → Free t → Promises Free xs (add_tail t) none (xs ++ (t ∷ []))
  from_front : (x : ℕ) (ys : List ℕ) → xs ≡ x ∷ ys → Promises Free xs rem_head (some x) ys
  from_end : (x : ℕ) (ys : List ℕ) → xs ≡ ys ++ (x ∷ []) → Promises Free xs rem_tail (some x) ys
  none_in_front : xs ≡ [] → Promises Free xs rem_head none xs
  none_at_end : xs ≡ [] → Promises Free xs rem_tail none xs
  behind :
      (us vs : List ℕ) (o t : ℕ)
      → xs ≡ us ++ (o ∷ vs)
      → Free t
      → Promises Free xs (insert_after o t) none (us ++ (o ∷ t ∷ vs))
  before :
      (us vs : List ℕ) (t o : ℕ)
      → xs ≡ us ++ (o ∷ vs)
      → Free t
      → Promises Free xs (insert_before t o) none (us ++ (t ∷ o ∷ vs))
  away :
      (us vs : List ℕ) (x : ℕ) → xs ≡ us ++ (x ∷ vs) → Promises Free xs (remove x) none (us ++ vs)

-- The operation on the nodes returns what it promises, and the nodes then represent the new sequence.
pub record Implements (tl : ThreadList) (s : Nodes) (op : ListOp) (r : Option ℕ) (ys : List ℕ)
    : Type 0 where
  pub tl' : ThreadList
  pub s' : Nodes
  pub runs : exec op tl s ≡ ok (r, tl', s')
  pub represents : Represents tl' s' ys

module _ {tl : ThreadList} {s : Nodes} {xs : List ℕ} (w : Represents tl s xs)
    (room : length xs < 2 ^ 32) where
  -- A thread is unlinked from between its neighbours.
  record Unlinked (x : ℕ) (ys : List ℕ) : Type 0 where
    before : ℕ
    after : ℕ
    back : s.tln_prev x ≡ some before
    forth : s.tln_next x ≡ some after
    gone : remove_node x s ≡ ok (removed before x after s)
    left : Represents (one_less tl) (removed before x after s) ys

  unlink : (us vs : List ℕ) (x : ℕ) → xs ≡ us ++ (x ∷ vs) → Unlinked x (us ++ vs)
  unlink us vs x split =
      let (ws, a, e) = split_before tl.tl_head us in
      let (b, zs, f) = split_first vs tl.tl_tail in
      let z = tl.tl_tail ∷ [] in
      let here : nodes_of tl xs ≡ ws ++ (a ∷ x ∷ b ∷ zs) =
        ap (λ l. tl.tl_head ∷ (l ++ z)) split
        ∙ (ap (λ l. tl.tl_head ∷ l) (append_assoc us (x ∷ vs) z)
            ∙ (e (x ∷ (vs ++ z)) ∙ ap (λ l. ws ++ (a ∷ x ∷ l)) f)) in
      let there : nodes_of tl (us ++ vs) ≡ ws ++ (a ∷ b ∷ zs) =
        ap (λ l. tl.tl_head ∷ l) (append_assoc us vs z)
        ∙ (e (vs ++ z) ∙ ap (λ l. ws ++ (a ∷ l)) f) in
      let c = subst (Chain s) here w.chain in
      let m = Chain-from s ws a (x ∷ b ∷ zs) c in
      record {
        before = a;
        after = b;
        back = m.1;
        forth = m.2.0;
        gone = remove_node-here w ws a x b zs (us ++ vs) here there;
        left = Represents-removed w ws a x b zs (us ++ vs) here there room;
      }
