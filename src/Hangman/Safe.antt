-- ===== src/Hangman/Safe.antt =====
-- What the detector keeps: no actor waits, through others, for itself.
use os22_crisologo_minichell.Base.{
  ℕ, ◌≤◌, ◌≡◌, ◌≢◌, sym, subst, inl, inr, Option, none, some, Outcome, ok, panic, arith, ◌==◌,
  Bool-cases, Option-cases,
}
use os22_crisologo_minichell.Hangman.{Graph, update, hangman_check, hangman_wait}
use os22_crisologo_minichell.Hangman.Walk.{
  Ends, free, runs, waits, Leads, Misses, Ends-cases, Leads-check_from, Misses-check_from,
  Misses-Ends, Leads-Misses,
}

-- From every actor the waits end.
unfoldable pub IsAcyclic : Graph → Type 0
IsAcyclic g = (a : ℕ) → Ends g (some a)

pub holder-Ends : (g : Graph) → IsAcyclic g → (l : ℕ) → Ends g (g.l_holding l)
unfolding IsAcyclic
holder-Ends g w l = elim (Option-cases (g.l_holding l)) [
  | inl e ↦ subst (Ends g) (sym e) free
  | inr (a, e) ↦ subst (Ends g) (sym e) (w a)
]

pub wait-Ends :
    (g : Graph) (a l : ℕ)
    → g.a_waiting a ≡ none
    → Misses g a (g.l_holding l)
    → {cur : Option ℕ} → Ends g cur
    → Ends (record g { a_waiting = update g.a_waiting a (some l) }) cur
wait-Ends g a l idle m free = free
wait-Ends g a l idle m (runs b e) = elim (Bool-cases (a == b)) [
  | inl t ↦ waits b l (ground (arith, t)) (Misses-Ends g a l m)
  | inr t ↦ runs b (ground (arith, t, e))
]
wait-Ends g a l idle m (waits b k e w) =
    waits b k (ground (arith, e, idle)) (wait-Ends g a l idle m w)

pub acquire-Ends :
    (g : Graph) (a l : ℕ)
    → {cur : Option ℕ} → Ends g cur
    → Ends
        (record {
          a_waiting = update g.a_waiting a none;
          l_holding = update g.l_holding l (some a);
        })
        cur
acquire-Ends g a l free = free
acquire-Ends g a l (runs b e) = runs b (ground (arith, e))
acquire-Ends g a l (waits b k e w) = elim (Bool-cases (a == b)) [
  | inl t ↦ runs b (ground (arith, t))
  | inr t ↦ waits b k (ground (arith, t, e)) (elim (Bool-cases (l == k)) [
    | inl s ↦ subst (Ends _) (ground (arith, s)) (runs a (ground arith))
    | inr s ↦ subst (Ends _) (ground (arith, s)) (acquire-Ends g a l w)
  ])
]

pub release-Ends :
    (g : Graph) (l : ℕ) {cur : Option ℕ}
    → Ends g cur
    → Ends (record g { l_holding = update g.l_holding l none }) cur
release-Ends g l free = free
release-Ends g l (runs b e) = runs b e
release-Ends g l (waits b k e w) = waits b k e (elim (Bool-cases (l == k)) [
  | inl s ↦ subst (Ends _) (ground (arith, s)) free
  | inr s ↦ subst (Ends _) (ground (arith, s)) (release-Ends g l w)
])

module _ (own : ℕ) where
  -- What hangman_wait has to answer: a panic if the waits from the holder of `l` lead to `a`, and
  -- else the graph with `a` waiting for `l`, in which the waits end.
  pub data Verdict (g : Graph) (a l : ℕ) : Outcome Graph → Type 0 where
    deadlock : Leads g a (g.l_holding l) → Verdict g a l panic
    may_wait :
        ¬ Leads g a (g.l_holding l)
        → IsAcyclic (record g { a_waiting = update g.a_waiting a (some l) })
        → Verdict g a l (ok (record g { a_waiting = update g.a_waiting a (some l) }))

  -- If the waits of every actor end, the actor waits for nothing and the lockable is not the
  -- detector's own lock, hangman_wait terminates: from some fuel on it panics if the waits from
  -- the holder of the lockable lead to the actor, and otherwise makes the actor wait for the
  -- lockable, after which the waits of every actor still end.
  pub hangman_wait_lem :
      (g : Graph) (a l : ℕ)
      → IsAcyclic g
      → g.a_waiting a ≡ none
      → l ≢ own
      → (least : ℕ) × (r : Outcome Graph) × ((fuel : ℕ)
          → least ≤ fuel
          → hangman_wait own fuel a l g ≡ some r)
        × Verdict g a l r
  unfolding hangman_wait hangman_check IsAcyclic
  hangman_wait_lem g a l w idle ne = elim (Ends-cases g a (holder-Ends g w l)) [
    | inl leads ↦
        let (least, answers) = Leads-check_from g a leads in
        (least, panic, (λ fuel le. ground (arith, idle, answers fuel le)), deadlock leads)
    | inr misses ↦
        let (least, answers) = Misses-check_from g a misses in
        (
          least,
          ok (record g { a_waiting = update g.a_waiting a (some l) }),
          (λ fuel le. ground (arith, idle, answers fuel le)),
          may_wait (λ leads. Leads-Misses g a leads misses)
              (λ b. wait-Ends g a l idle misses (w b)),
        )
  ]
