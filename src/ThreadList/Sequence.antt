-- ===== src/ThreadList/Sequence.antt =====
-- The sequence of threads that the nodes represent, when one is put in or taken out.
use os22_crisologo_minichell.Base.{
  ℕ, ◌+◌, ◌^◌, ◌<◌, ◌≡◌, refl, sym, ap, subst, ◌∙◌, none, some, List, [], ◌∷◌, ◌++◌, arith, ◌==◌,
  if◌then◌else◌, length, length-append, count, ok,
}
use mathlib.Core.List.{append_assoc}
use os22_crisologo_minichell.ThreadList.{
  Nodes, ThreadList, one_more, one_less, insert_after_node, insert_before_node, remove_node,
}
use os22_crisologo_minichell.ThreadList.Chain.{
  Chain, IsSimple, count-append, Chain-middle, Chain-from,
}
use os22_crisologo_minichell.ThreadList.Edit.{
  inserted, removed, insert_after_node-inserted, insert_before_node-inserted, Chain-inserted,
  remove_node-removed, Chain-removed,
}

-- The bookends and the threads between them.
abbrev pub nodes_of : ThreadList → List ℕ → List ℕ
nodes_of tl xs = tl.tl_head ∷ (xs ++ (tl.tl_tail ∷ []))

-- The list holds the threads `xs`, in this order.
pub record Represents (tl : ThreadList) (s : Nodes) (xs : List ℕ) : Type 0 where
  pub chain : Chain s (nodes_of tl xs)
  pub simple : IsSimple (nodes_of tl xs)
  pub first : s.tln_prev tl.tl_head ≡ none
  pub last : s.tln_next tl.tl_tail ≡ none
  pub counted : tl.tl_count ≡ length xs
  pub selves : (i : ℕ) → 0 < count i xs → s.tln_self i ≡ some i

-- A thread that can be put on the list: on it already it is not, and its node is its own.
pub record Ready (tl : ThreadList) (s : Nodes) (xs : List ℕ) (t : ℕ) : Type 0 where
  pub fresh : count t (nodes_of tl xs) ≡ 0
  pub own : s.tln_self t ≡ some t
  pub room : length xs + 1 < 2 ^ 32

pub split_first : (xs : List ℕ) (z : ℕ) → (b : ℕ) × (vs : List ℕ) × (xs ++ (z ∷ []) ≡ b ∷ vs)
split_first [] z = (z, [], refl)
split_first (x ∷ xs) z = (x, xs ++ (z ∷ []), refl)

split_last : (h : ℕ) (xs : List ℕ) → (us : List ℕ) × (a : ℕ) × (h ∷ xs ≡ us ++ (a ∷ []))
split_last h [] = ([], h, refl)
split_last h (x ∷ xs) = let (us, a, e) = split_last x xs in (h ∷ us, a, ap (λ l. h ∷ l) e)

-- the same, with more behind
pub split_before :
    (h : ℕ) (xs : List ℕ)
    → (us : List ℕ) × (a : ℕ) × ((zs : List ℕ) → h ∷ (xs ++ zs) ≡ us ++ (a ∷ zs))
split_before h xs =
    let (us, a, e) = split_last h xs in
    (us, a, λ zs. ap (λ l. l ++ zs) e ∙ append_assoc us (a ∷ []) zs)

module _ {tl : ThreadList} {s : Nodes} {xs : List ℕ} (w : Represents tl s xs) (us : List ℕ)
    (a b : ℕ) (vs : List ℕ) (t : ℕ) (ys : List ℕ) (here : nodes_of tl xs ≡ us ++ (a ∷ b ∷ vs))
    (there : nodes_of tl ys ≡ us ++ (a ∷ t ∷ b ∷ vs)) (r : Ready tl s xs t) where
  links_here : Chain s (us ++ (a ∷ b ∷ vs))
  links_here = subst (Chain s) here w.chain

  once_here : IsSimple (us ++ (a ∷ b ∷ vs))
  once_here = subst IsSimple here w.simple

  fresh_here : count t (us ++ (a ∷ b ∷ vs)) ≡ 0
  fresh_here = subst (λ l. count t l ≡ 0) here r.fresh

  -- how often a node stands in the new list
  counts : (i : ℕ) → count i (nodes_of tl ys) ≡ count i (nodes_of tl xs) + (if t == i then 1 else 0)
  counts i = ground (
    arith,
    ap (count i) here,
    ap (count i) there,
    count-append us (a ∷ b ∷ vs) i,
    count-append us (a ∷ t ∷ b ∷ vs) i,
  )

  lengths : length ys ≡ length xs + 1
  lengths = omega (
    arith,
    ap length here,
    ap length there,
    length-append us (a ∷ b ∷ vs),
    length-append us (a ∷ t ∷ b ∷ vs),
    length-append xs (tl.tl_tail ∷ []),
    length-append ys (tl.tl_tail ∷ []),
  )

  pub Represents-inserted : Represents (one_more tl) (inserted a t b s) ys
  Represents-inserted =
      let m = Chain-middle s us a b vs links_here in
      record {
        chain =
            subst (Chain (inserted a t b s)) (sym there)
              (Chain-inserted s us a b vs t links_here fresh_here once_here);
        simple = λ i. ground (arith, counts i, w.simple i, r.fresh);
        first = ground (arith, m, w.first, r.fresh);
        last = ground (arith, m, w.last, r.fresh, count-append xs (tl.tl_tail ∷ []) t);
        counted = omega (arith, lengths, w.counted, r.room);
        selves = λ i l. ground (
          arith,
          counts i,
          r.own,
          w.selves i,
          count-append xs (tl.tl_tail ∷ []) i,
          count-append ys (tl.tl_tail ∷ []) i,
        );
      }

  pub after_node : insert_after_node a t s ≡ ok (inserted a t b s)
  after_node = insert_after_node-inserted s us a b vs t links_here fresh_here

  pub before_node : insert_before_node t b s ≡ ok (inserted a t b s)
  before_node = insert_before_node-inserted s us a b vs t links_here fresh_here

module _ {tl : ThreadList} {s : Nodes} {xs : List ℕ} (w : Represents tl s xs) (us : List ℕ)
    (a x b : ℕ) (vs : List ℕ) (ys : List ℕ) (here : nodes_of tl xs ≡ us ++ (a ∷ x ∷ b ∷ vs))
    (there : nodes_of tl ys ≡ us ++ (a ∷ b ∷ vs)) where
  links_with : Chain s (us ++ (a ∷ x ∷ b ∷ vs))
  links_with = subst (Chain s) here w.chain

  once_with : IsSimple (us ++ (a ∷ x ∷ b ∷ vs))
  once_with = subst IsSimple here w.simple

  counts_with :
      (i : ℕ) → count i (nodes_of tl xs) ≡ count i (nodes_of tl ys) + (if x == i then 1 else 0)
  counts_with i = ground (
    arith,
    ap (count i) here,
    ap (count i) there,
    count-append us (a ∷ x ∷ b ∷ vs) i,
    count-append us (a ∷ b ∷ vs) i,
  )

  lengths_with : length xs ≡ length ys + 1
  lengths_with = omega (
    arith,
    ap length here,
    ap length there,
    length-append us (a ∷ x ∷ b ∷ vs),
    length-append us (a ∷ b ∷ vs),
    length-append xs (tl.tl_tail ∷ []),
    length-append ys (tl.tl_tail ∷ []),
  )

  pub remove_node-here : remove_node x s ≡ ok (removed a x b s)
  remove_node-here = remove_node-removed s us a x b vs links_with once_with

  pub Represents-removed : length xs < 2 ^ 32 → Represents (one_less tl) (removed a x b s) ys
  Represents-removed room =
      let m = Chain-from s us a (x ∷ b ∷ vs) links_with in
      record {
        chain =
            subst (Chain (removed a x b s)) (sym there)
              (Chain-removed s us a x b vs links_with once_with);
        simple = λ i. ground (arith, counts_with i, w.simple i);
        first = ground (arith, m, w.first);
        last = ground (arith, m, w.last);
        counted = omega (arith, lengths_with, w.counted, room);
        selves = λ i l. ground (
          arith,
          counts_with i,
          w.selves i,
          count-append xs (tl.tl_tail ∷ []) i,
          count-append ys (tl.tl_tail ∷ []) i,
        );
      }
