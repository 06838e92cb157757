-- ===== src/ThreadList/Chain.antt =====
-- Nodes that are linked in order, and the lists in which they stand.
use os22_crisologo_minichell.Base.{
  ℕ, ◌+◌, ◌<◌, ◌≤◌, ◌≡◌, ◌∙◌, some, List, [], ◌∷◌, ◌++◌, arith, count,
}
use os22_crisologo_minichell.ThreadList.{Nodes}

-- Each node of the list points at the next one, and that one back.
abbrev pub Chain : Nodes → List ℕ → Type 0
Chain s [] = Unit {0}
Chain s (a ∷ []) = Unit {0}
Chain s (a ∷ b ∷ r) = (s.tln_next a ≡ some b) × (s.tln_prev b ≡ some a) × Chain s (b ∷ r)

pub count-append : (fs gs : List ℕ) (i : ℕ) → count i (fs ++ gs) ≡ count i fs + count i gs
count-append [] gs i = omega arith
count-append (f ∷ fs) gs i = ground (arith, count-append fs gs i)

-- No node stands in the list twice.
abbrev pub IsSimple : List ℕ → Type 0
IsSimple ns = (i : ℕ) → count i ns ≤ 1

-- A change to other nodes leaves the chain: the link back from the first node does not matter.
pub Chain-kept :
    (s s' : Nodes) (a : ℕ) (r : List ℕ)
    → ((i : ℕ) → 0 < count i (a ∷ r) → s'.tln_next i ≡ s.tln_next i)
    → ((i : ℕ) → 0 < count i r → s'.tln_prev i ≡ s.tln_prev i)
    → Chain s (a ∷ r)
    → Chain s' (a ∷ r)
Chain-kept s s' a [] hn hp c = tt
Chain-kept s s' a (b ∷ r) hn hp c = (
  hn a (ground arith) ∙ c.0,
  hp b (ground arith) ∙ c.1,
  Chain-kept s s' b r (λ i l. hn i (ground arith)) (λ i l. hp i (ground arith)) c.2,
)

-- The neighbours in the middle of a chain.
pub Chain-middle :
    (s : Nodes) (us : List ℕ) (a b : ℕ) (vs : List ℕ)
    → Chain s (us ++ (a ∷ b ∷ vs))
    → (s.tln_next a ≡ some b) × (s.tln_prev b ≡ some a)
Chain-middle s [] a b vs c = (c.0, c.1)
Chain-middle s (u ∷ []) a b vs c = Chain-middle s [] a b vs c.2
Chain-middle s (u ∷ w ∷ us) a b vs c = Chain-middle s (w ∷ us) a b vs c.2

-- The part of a chain before the pair (a, b) is replaced by nothing else, and from `a` on by `new`.
pub Chain-swap :
    (s s' : Nodes) (us : List ℕ) (a : ℕ) (old new : List ℕ)
    → ((i : ℕ) → 0 < count i us → s'.tln_next i ≡ s.tln_next i)
    → ((i : ℕ) → 0 < count i us → s'.tln_prev i ≡ s.tln_prev i)
    → s'.tln_prev a ≡ s.tln_prev a
    → Chain s (us ++ (a ∷ old))
    → Chain s' (a ∷ new)
    → Chain s' (us ++ (a ∷ new))
Chain-swap s s' [] a old new hn hp ha c d = d
Chain-swap s s' (u ∷ []) a old new hn hp ha c d = (hn u (ground arith) ∙ c.0, ha ∙ c.1, d)
Chain-swap s s' (u ∷ w ∷ us) a old new hn hp ha c d = (
  hn u (ground arith) ∙ c.0,
  hp w (ground arith) ∙ c.1,
  Chain-swap s s' (w ∷ us) a old new (λ i l. hn i (ground arith)) (λ i l. hp i (ground arith)) ha
      c.2 d,
)

-- From a node on.
pub Chain-from :
    (s : Nodes) (us : List ℕ) (a : ℕ) (vs : List ℕ) → Chain s (us ++ (a ∷ vs)) → Chain s (a ∷ vs)
Chain-from s [] a vs c = c
Chain-from s (u ∷ []) a vs c = c.2
Chain-from s (u ∷ w ∷ us) a vs c = Chain-from s (w ∷ us) a vs c.2
