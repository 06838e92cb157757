-- ===== src/Hangman/Steps.antt =====
-- The detector's calls in any order: what they keep, and that someone can always go on.
use os22_crisologo_minichell.Base.{
  ℕ, ◌≡◌, ◌≢◌, refl, sym, subst, ◌⊎◌, inl, inr, true, false, Option, none, some, ok, arith, ◌==◌,
  Bool-cases, Option-cases,
}
use os22_crisologo_minichell.Hangman.{
  Graph, update, check_from, hangman_check, hangman_wait, hangman_acquire, hangman_release,
}
use os22_crisologo_minichell.Hangman.Safe.{
  IsAcyclic, wait-Ends, acquire-Ends, release-Ends, holder-Ends,
}
use os22_crisologo_minichell.Hangman.Walk.{Ends, free, runs, waits, Misses, check_from-Misses}

module _ (own : ℕ) where
  -- The detector's calls that return.
  pub data Step : Graph → Graph → Type 0 where
    wait : {g g' : Graph} (fuel a l : ℕ) → hangman_wait own fuel a l g ≡ some (ok g') → Step g g'
    acquire : {g g' : Graph} (a l : ℕ) → hangman_acquire own a l g ≡ ok g' → Step g g'
    release : {g g' : Graph} (a l : ℕ) → hangman_release own a l g ≡ ok g' → Step g g'

  -- Any number of them, by any actors in any order.
  pub data Reach (g : Graph) : Graph → Type 0 where
    start : Reach g g
    after : {g' g'' : Graph} → Reach g g' → Step g' g'' → Reach g g''

  -- No cycle, and nobody waits for the detector's own lock.
  pub record IsWf (g : Graph) : Type 0 where
    pub ends : IsAcyclic g
    pub tracked : (a : ℕ) → g.a_waiting a ≢ some own

  wait-cases :
      (g g' : Graph) (fuel a l : ℕ)
      → hangman_wait own fuel a l g ≡ some (ok g')
      → (g' ≡ g)
        ⊎ ((g.a_waiting a ≡ none)
            × (l ≢ own)
            × Misses g a (g.l_holding l)
            × (g' ≡ record g { a_waiting = update g.a_waiting a (some l) }))
  unfolding hangman_wait hangman_check
  wait-cases g g' fuel a l h = elim (Bool-cases (l == own)) [
    | inl t ↦ inl (ground (arith, t, h))
    | inr t ↦ elim (Option-cases (g.a_waiting a)) [
      | inl e ↦ elim (Option-cases (check_from fuel g a (g.l_holding l))) [
        | inl f ↦ ground (arith, t, e, f, h)
        | inr (true, f) ↦ ground (arith, t, e, f, h)
        | inr (false, f) ↦ inr (
          e,
          ground (arith, t),
          check_from-Misses g a fuel (g.l_holding l) f,
          ground (arith, t, e, f, h),
        )
      ]
      | inr (k, e) ↦ ground (arith, t, e, h)
    ]
  ]

  acquire-cases :
      (g g' : Graph) (a l : ℕ)
      → hangman_acquire own a l g ≡ ok g'
      → (g' ≡ g)
        ⊎ (g' ≡ record {
          a_waiting = update g.a_waiting a none;
          l_holding = update g.l_holding l (some a);
        })
  unfolding hangman_acquire
  acquire-cases g g' a l h = ground (arith, h)

  release-cases :
      (g g' : Graph) (a l : ℕ)
      → hangman_release own a l g ≡ ok g'
      → (g' ≡ g) ⊎ (g' ≡ record g { l_holding = update g.l_holding l none })
  unfolding hangman_release
  release-cases g g' a l h = ground (arith, h)

  Step-IsWf : {g g' : Graph} → Step g g' → IsWf g → IsWf g'
  unfolding IsAcyclic
  Step-IsWf {g} {g'} (wait fuel a l h) w = elim (wait-cases g g' fuel a l h) [
    | inl e ↦ subst IsWf (sym e) w
    | inr (idle, ne, m, e) ↦ subst IsWf (sym e) (record {
      ends = λ b. wait-Ends g a l idle m (w.ends b);
      tracked = λ b q. ground (arith, w.tracked b, q, ne);
    })
  ]
  Step-IsWf {g} {g'} (acquire a l h) w = elim (acquire-cases g g' a l h) [
    | inl e ↦ subst IsWf (sym e) w
    | inr e ↦ subst IsWf (sym e) (record {
      ends = λ b. acquire-Ends g a l (w.ends b);
      tracked = λ b q. ground (arith, w.tracked b, q);
    })
  ]
  Step-IsWf {g} {g'} (release a l h) w = elim (release-cases g g' a l h) [
    | inl e ↦ subst IsWf (sym e) w
    | inr e ↦
        subst IsWf (sym e) (record { ends = λ b. release-Ends g l (w.ends b); tracked = w.tracked })
  ]

  -- Whatever calls of hangman_wait, hangman_acquire and hangman_release return, from a graph in which
  -- the waits of every actor end and nobody waits for the detector's own lock they lead to such a
  -- graph: the detector lets no cycle of waits come about.
  pub Reach-IsWf : {g g' : Graph} → Reach g g' → IsWf g → IsWf g'
  Reach-IsWf start w = w
  Reach-IsWf (after r s) w = Step-IsWf s (Reach-IsWf r w)

  -- Someone can go on: an actor that waits for a free lockable, or the holder of one waited for.
  pub data CanGoOn (g : Graph) : Type 0 where
    takes :
        (a l : ℕ) (g' : Graph)
        → g.a_waiting a ≡ some l
        → l ≢ own
        → hangman_acquire own a l g ≡ ok g'
        → CanGoOn g
    gives :
        (a b l : ℕ) (g' : Graph)
        → g.a_waiting a ≡ some l
        → g.l_holding l ≡ some b
        → hangman_release own b l g ≡ ok g'
        → CanGoOn g

  chain-CanGoOn :
      (g : Graph)
      → IsWf g
      → (a l : ℕ) → g.a_waiting a ≡ some l
      → {next : Option ℕ} → g.l_holding l ≡ next
      → Ends g next
      → CanGoOn g
  unfolding hangman_acquire hangman_release
  chain-CanGoOn g w a l e q free =
      takes a l
        (record {
          a_waiting = update g.a_waiting a none;
          l_holding = update g.l_holding l (some a);
        })
        e (ground (arith, w.tracked a, e)) (ground (arith, e, q, w.tracked a))
  chain-CanGoOn g w a l e q (runs b f) =
      gives a b l (record g { l_holding = update g.l_holding l none }) e q
        (ground (arith, e, q, f, w.tracked a))
  chain-CanGoOn g w a l e q (waits b k f rest) = chain-CanGoOn g w b k f refl rest

  -- No deadlock: in every graph that the detector's calls reach from such a graph, as long as some
  -- actor waits there is an actor that waits for a free lockable, for which hangman_acquire returns,
  -- or one that holds what another waits for and waits for nothing, for which hangman_release returns.
  pub Reach-CanGoOn :
      {g g' : Graph} (a l : ℕ) → IsWf g → Reach g g' → g'.a_waiting a ≡ some l → CanGoOn g'
  Reach-CanGoOn {g} {g'} a l w r e =
      let w' = Reach-IsWf r w in chain-CanGoOn g' w' a l e refl (holder-Ends g' w'.ends l)
