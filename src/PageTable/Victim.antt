-- ===== src/PageTable/Victim.antt =====
-- victim_pageSearch: which page is given up.
use os22_crisologo_minichell.Base.{
  ℕ, zero, suc, ◌+◌, ◌≤◌, ◌≡◌, refl, sym, subst, ◌∙◌, ◌⊎◌, inl, inr, Bool, true, false, Option,
  none, some, List, [], ◌∷◌, arith, ltb, Bool-cases, Option-cases, get_elem?, NoneHolds,
}
use os22_crisologo_minichell.Segments.{AddrSpace}
use os22_crisologo_minichell.PageTable.{
  Entry, Kind, is_candidate, better, victim_loop, victim_page_search,
}

-- What `better` keeps: one of its two candidates, no worse than either.
record Better (best : Option (ℕ × ℕ)) (counter i : ℕ) : Type 0 where
  least : ℕ
  at : ℕ
  is : better best counter i ≡ some (least, at)
  le_new : least ≤ counter
  le_old : (l w : ℕ) → best ≡ some (l, w) → least ≤ l
  from : (best ≡ some (least, at)) ⊎ ((least ≡ counter) × (at ≡ i))

better_lem : (best : Option (ℕ × ℕ)) (counter i : ℕ) → Better best counter i
unfolding better
better_lem none counter i = record {
  least = counter;
  at = i;
  is = refl;
  le_new = omega arith;
  le_old = λ l w h. ground arith;
  from = inr (refl, refl);
}
better_lem (some (least, v)) counter i = elim (Bool-cases (ltb counter least)) [
  | inl e ↦ record {
    least = counter;
    at = i;
    is = rw e;
    le_new = omega arith;
    le_old = λ l w h. ground arith;
    from = inr (refl, refl);
  }
  | inr e ↦ record {
    least = least;
    at = v;
    is = rw e;
    le_new = ground arith;
    le_old = λ l w h. ground arith;
    from = inl refl;
  }
]

module _ (test : Entry → Bool) where
  -- What the loop returns over `xs`, whose first index is `i`, when it starts with `best`.
  record Chosen (xs : List Entry) (i : ℕ) (best : Option (ℕ × ℕ)) (c v : ℕ) : Type 0 where
    source :
        (best ≡ some (c, v))
        ⊎ ((k : ℕ) × (e : Entry) × (v ≡ i + k)
            × (get_elem? xs k ≡ some e)
            × (test e ≡ true)
            × (e.victim_counter ≡ c))
    least : (m : ℕ) (b : Entry) → get_elem? xs m ≡ some b → test b ≡ true → c ≤ b.victim_counter
    least_best : (l w : ℕ) → best ≡ some (l, w) → c ≤ l

  skip :
      {e : Entry} {es : List Entry} {i : ℕ} {best : Option (ℕ × ℕ)} {c v : ℕ}
      → test e ≡ false
      → Chosen es (i + 1) best c v
      → Chosen (e ∷ es) i best c v
  skip {e} {es} {i} {best} {c} {v} no_test r = record {
    source = elim (r.source) [
      | inl s ↦ inl s
      | inr (k, b, q, g, t, n) ↦ inr (suc k, b, omega arith, g, t, n)
    ];
    least = rest;
    least_best = r.least_best;
  }
    where
      rest :
          (m : ℕ) (b : Entry) → get_elem? (e ∷ es) m ≡ some b → test b ≡ true → c ≤ b.victim_counter
      rest zero b g t = ground arith
      rest (suc m) b g t = r.least m b g t

  keep :
      {e : Entry} {es : List Entry} {i : ℕ} {best : Option (ℕ × ℕ)} {c v : ℕ}
      → test e ≡ true
      → Chosen es (i + 1) (better best e.victim_counter i) c v
      → Chosen (e ∷ es) i best c v
  keep {e} {es} {i} {best} {c} {v} yes_test r = record {
    source = elim (r.source) [
      | inl s ↦ elim (q.from) [
        | inl old ↦ inl (old ∙ (sym q.is ∙ s))
        | inr (l, w) ↦ inr (0, e, ground (arith, q.is), refl, yes_test, ground (arith, q.is))
      ]
      | inr (k, b, p, g, t, n) ↦ inr (suc k, b, omega arith, g, t, n)
    ];
    least = rest;
    least_best = λ l w h. omega (arith, q.le_old l w h, le_q);
  }
    where
      q : Better best e.victim_counter i
      q = better_lem best e.victim_counter i

      le_q : c ≤ q.least
      le_q = r.least_best q.least q.at q.is

      rest :
          (m : ℕ) (b : Entry) → get_elem? (e ∷ es) m ≡ some b → test b ≡ true → c ≤ b.victim_counter
      rest zero b g t = ground (arith, le_q, q.le_new)
      rest (suc m) b g t = r.least m b g t

  victim_loop-Chosen :
      (xs : List Entry) (i : ℕ) (best : Option (ℕ × ℕ)) {c v : ℕ}
      → victim_loop test xs i best ≡ some (c, v)
      → Chosen xs i best c v
  unfolding victim_loop
  victim_loop-Chosen [] i best h = record {
    source = inl h;
    least = λ m b g t. ground arith;
    least_best = λ l w e. ground arith;
  }
  victim_loop-Chosen (e ∷ es) i best h = elim (Bool-cases (test e)) [
    | inl t ↦ keep t (victim_loop-Chosen es (i + 1) (better best e.victim_counter i) (rw t at h))
    | inr t ↦ skip t (victim_loop-Chosen es (i + 1) best (rw t at h))
  ]

  victim_loop-none :
      (xs : List Entry) (i : ℕ) (best : Option (ℕ × ℕ))
      → victim_loop test xs i best ≡ none
      → (best ≡ none) × NoneHolds test xs
  unfolding victim_loop
  victim_loop-none [] i best h = (h, λ m b g. ground arith)
  victim_loop-none (e ∷ es) i best h = elim (Bool-cases (test e)) [
    | inl t ↦ absurd (
        ground (
          arith,
          victim_loop-none es (i + 1) (better best e.victim_counter i) (rw t at h),
          (better_lem best e.victim_counter i).is,
        ))
    | inr t ↦ let (n, f) = victim_loop-none es (i + 1) best (rw t at h) in (n, go t f)
  ]
    where
      go : test e ≡ false → NoneHolds test es → NoneHolds test (e ∷ es)
      go t f zero b g = ground arith
      go t f (suc m) b g = f m b g

-- The page that is given up: a page of the process in the segment asked for, whose counter is the
-- least among all of those.
pub record IsVictim (kind : Kind) (space : AddrSpace) (pid : ℕ) (pg : List Entry) (v : ℕ)
    : Type 0 where
  pub entry : Entry
  pub at : get_elem? pg v ≡ some entry
  pub candidate : is_candidate kind space pid entry ≡ true
  pub least :
      (m : ℕ) (b : Entry)
      → get_elem? pg m ≡ some b
      → is_candidate kind space pid b ≡ true
      → entry.victim_counter ≤ b.victim_counter

-- If victim_pageSearch returns a frame, its entry is a candidate of the least counter; if it returns
-- noEntryFound, the page table has no candidate.
pub victim_page_search_lem :
    (kind : Kind) (space : AddrSpace) (pid : ℕ) (pg : List Entry)
    → ((v : ℕ) → victim_page_search kind space pid pg ≡ some v → IsVictim kind space pid pg v)
      × (victim_page_search kind space pid pg ≡ none → NoneHolds (is_candidate kind space pid) pg)
unfolding victim_page_search
victim_page_search_lem kind space pid pg = elim (Option-cases (victim_loop test pg 0 none)) [
  | inl e ↦ (λ v h. ground arith, λ h. (victim_loop-none test pg 0 none e).1)
  | inr ((c, w), e) ↦ (λ v h. victim e (ground arith), λ h. ground arith)
]
  where
    test : Entry → Bool
    test = is_candidate kind space pid

    victim :
        {c w v : ℕ}
        → victim_loop test pg 0 none ≡ some (c, w)
        → w ≡ v
        → IsVictim kind space pid pg v
    victim {c} {w} {v} e q =
        let r = victim_loop-Chosen test pg 0 none e in
        elim (r.source) [
          | inl s ↦ absurd (ground arith)
          | inr (k, b, p, g, t, n) ↦ record {
            entry = b;
            at = subst (λ j. get_elem? pg j ≡ some b) (omega arith) g;
            candidate = t;
            least = λ m b' g' t'. omega (arith, r.least m b' g' t');
          }
        ]
