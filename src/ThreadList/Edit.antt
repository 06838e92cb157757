-- ===== src/ThreadList/Edit.antt =====
-- A node put between two neighbours, and one taken from between them.
use os22_crisologo_minichell.Base.{ℕ, ◌≡◌, ◌≢◌, none, some, List, ◌∷◌, ◌++◌, arith, count, ok}
use os22_crisologo_minichell.ThreadList.{
  Nodes, assign, insert_after_node, insert_before_node, remove_node,
}
use os22_crisologo_minichell.ThreadList.Chain.{
  Chain, IsSimple, count-append, Chain-kept, Chain-middle, Chain-swap, Chain-from,
}

-- `t` between `a` and `b`
abbrev pub inserted : ℕ → ℕ → ℕ → Nodes → Nodes
inserted a t b s = record s {
  tln_prev = assign (assign s.tln_prev t (some a)) b (some t);
  tln_next = assign (assign s.tln_next t (some b)) a (some t);
}

-- `x` gone from between `a` and `b`
abbrev pub removed : ℕ → ℕ → ℕ → Nodes → Nodes
removed a x b s = record s {
  tln_prev = assign (assign s.tln_prev b (some a)) x none;
  tln_next = assign (assign s.tln_next a (some b)) x none;
}

module _ (s : Nodes) (us : List ℕ) (a b : ℕ) (vs : List ℕ) (t : ℕ)
    (c : Chain s (us ++ (a ∷ b ∷ vs))) (fresh : count t (us ++ (a ∷ b ∷ vs)) ≡ 0) where
  apart : (a ≢ t) × (b ≢ t) × (count t us ≡ 0) × (count t vs ≡ 0)
  apart = ground (arith, fresh, count-append us (a ∷ b ∷ vs) t)

  pub insert_after_node-inserted : insert_after_node a t s ≡ ok (inserted a t b s)
  unfolding insert_after_node
  insert_after_node-inserted = let m = Chain-middle s us a b vs c in ground (arith, m, apart)

  pub insert_before_node-inserted : insert_before_node t b s ≡ ok (inserted a t b s)
  unfolding insert_before_node
  insert_before_node-inserted = let m = Chain-middle s us a b vs c in ground (arith, m, apart)

  module _ (simple : IsSimple (us ++ (a ∷ b ∷ vs))) where
    pub Chain-inserted : Chain (inserted a t b s) (us ++ (a ∷ t ∷ b ∷ vs))
    Chain-inserted =
        Chain-swap s (inserted a t b s) us a (b ∷ vs) (t ∷ b ∷ vs)
          (λ i l. ground (arith, apart, simple a, simple i, count-append us (a ∷ b ∷ vs) i))
          (λ i l. ground (arith, apart, simple b, simple i, count-append us (a ∷ b ∷ vs) i))
          (ground (arith, apart, simple a, count-append us (a ∷ b ∷ vs) a)) c
          (
            ground (arith, apart),
            ground (arith, apart),
            (ground (arith, apart), ground (arith, apart), rest),
          )
      where
        rest : Chain (inserted a t b s) (b ∷ vs)
        rest =
            Chain-kept s (inserted a t b s) b vs
              (λ i l. ground (arith, apart, simple i, count-append us (a ∷ b ∷ vs) i))
              (λ i l. ground (arith, apart, simple i, count-append us (a ∷ b ∷ vs) i))
              ((Chain-from s us a (b ∷ vs) c).2)

module _ (s : Nodes) (us : List ℕ) (a x b : ℕ) (vs : List ℕ) (c : Chain s (us ++ (a ∷ x ∷ b ∷ vs)))
    (simple : IsSimple (us ++ (a ∷ x ∷ b ∷ vs))) where
  from_a : Chain s (a ∷ x ∷ b ∷ vs)
  from_a = Chain-from s us a (x ∷ b ∷ vs) c

  pub remove_node-removed : remove_node x s ≡ ok (removed a x b s)
  unfolding remove_node
  remove_node-removed = ground (
    arith,
    from_a,
    simple a,
    simple x,
    simple b,
    count-append us (a ∷ x ∷ b ∷ vs) a,
    count-append us (a ∷ x ∷ b ∷ vs) x,
  )

  pub Chain-removed : Chain (removed a x b s) (us ++ (a ∷ b ∷ vs))
  Chain-removed =
      Chain-swap s (removed a x b s) us a (x ∷ b ∷ vs) (b ∷ vs)
        (λ i l. ground (arith, simple i, count-append us (a ∷ x ∷ b ∷ vs) i))
        (λ i l. ground (arith, simple i, count-append us (a ∷ x ∷ b ∷ vs) i))
        (ground (arith, simple a, count-append us (a ∷ x ∷ b ∷ vs) a)) c
        (
          ground (arith, simple a, count-append us (a ∷ x ∷ b ∷ vs) a),
          ground (arith, simple b, count-append us (a ∷ x ∷ b ∷ vs) b),
          Chain-kept s (removed a x b s) b vs
              (λ i l. ground (arith, simple i, count-append us (a ∷ x ∷ b ∷ vs) i))
              (λ i l. ground (arith, simple i, count-append us (a ∷ x ∷ b ∷ vs) i)) from_a.2.2,
        )
