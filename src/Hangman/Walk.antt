-- ===== src/Hangman/Walk.antt =====
-- The walk along who waits for what: where it ends, and what it finds.
use os22_crisologo_minichell.Base.{
  ℕ, zero, suc, ◌≤◌, ◌≡◌, ◌≢◌, refl, subst, ◌⊎◌, inl, inr, Bool, true, false, Option, none, some,
  arith, ◌==◌, Bool-cases, Option-cases,
}
use os22_crisologo_minichell.Hangman.{Graph, update, check_from}

-- From this actor on, or NULL, the waits end: at NULL or at an actor that does not wait.
pub data Ends (g : Graph) : Option ℕ → Type 0 where
  free : Ends g none
  runs : (a : ℕ) → g.a_waiting a ≡ none → Ends g (some a)
  waits : (a l : ℕ) → g.a_waiting a ≡ some l → Ends g (g.l_holding l) → Ends g (some a)

-- From this actor on, the waits lead to `target`.
pub data Leads (g : Graph) (target : ℕ) : Option ℕ → Type 0 where
  here : Leads g target (some target)
  next :
      (a l : ℕ) → g.a_waiting a ≡ some l → Leads g target (g.l_holding l) → Leads g target (some a)

-- The waits end, and do not come to `target`.
pub data Misses (g : Graph) (target : ℕ) : Option ℕ → Type 0 where
  miss_free : Misses g target none
  miss_runs : (a : ℕ) → a ≢ target → g.a_waiting a ≡ none → Misses g target (some a)
  miss_waits :
      (a l : ℕ)
      → a ≢ target
      → g.a_waiting a ≡ some l
      → Misses g target (g.l_holding l)
      → Misses g target (some a)

Leads-same : (g : Graph) {target a : ℕ} → target ≡ a → Leads g target (some a)
Leads-same g {target} e = subst (λ x. Leads g target (some x)) e here

-- A walk that ends comes to `target` or misses it.
pub Ends-cases :
    (g : Graph) (target : ℕ) {cur : Option ℕ}
    → Ends g cur
    → Leads g target cur ⊎ Misses g target cur
Ends-cases g target free = inr miss_free
Ends-cases g target (runs a e) = elim (Bool-cases (a == target)) [
  | inl t ↦ inl (Leads-same g (ground (arith, t)))
  | inr t ↦ inr (miss_runs a (ground (arith, t)) e)
]
Ends-cases g target (waits a l e w) = elim (Bool-cases (a == target)) [
  | inl t ↦ inl (Leads-same g (ground (arith, t)))
  | inr t ↦ elim (Ends-cases g target w) [
    | inl leads ↦ inl (next a l e leads)
    | inr misses ↦ inr (miss_waits a l (ground (arith, t)) e misses)
  ]
]

-- The loop from `cur` on gives `found` on this fuel and on more.
abbrev pub Answers : Graph → ℕ → Option ℕ → Bool → ℕ → Type 0
Answers g target cur found least =
    (fuel : ℕ) → least ≤ fuel → check_from fuel g target cur ≡ some found

Answers-free : (g : Graph) (target : ℕ) → Answers g target none false 1
unfolding check_from
Answers-free g target zero le = ground arith
Answers-free g target (suc fuel) le = refl

Answers-here : (g : Graph) (target : ℕ) → Answers g target (some target) true 1
unfolding check_from
Answers-here g target zero le = ground arith
Answers-here g target (suc fuel) le = ground arith

Answers-same : (g : Graph) {target a : ℕ} → target ≡ a → Answers g target (some a) true 1
Answers-same g {target} e = subst (λ x. Answers g target (some x) true 1) e (Answers-here g target)

Answers-runs :
    (g : Graph) (target a : ℕ)
    → a ≢ target
    → g.a_waiting a ≡ none
    → Answers g target (some a) false 1
unfolding check_from
Answers-runs g target a ne e zero le = ground arith
Answers-runs g target a ne e (suc fuel) le = ground (arith, e)

Answers-next :
    (g : Graph) (target a l least : ℕ) (found : Bool)
    → a ≢ target
    → g.a_waiting a ≡ some l
    → Answers g target (g.l_holding l) found least
    → Answers g target (some a) found (suc least)
unfolding check_from
Answers-next g target a l least found ne e rest zero le = ground arith
Answers-next g target a l least found ne e rest (suc fuel) le =
    let r : check_from fuel g target (g.l_holding l) ≡ some found = rest fuel (omega arith) in
    ground (arith, e, r)

-- A walk that comes to `target` is answered with true, once the fuel is enough.
pub Leads-check_from :
    (g : Graph) (target : ℕ) {cur : Option ℕ}
    → Leads g target cur
    → (least : ℕ) × Answers g target cur true least
Leads-check_from g target here = (1, Answers-here g target)
Leads-check_from g target (next a l e leads) = elim (Bool-cases (a == target)) [
  | inl t ↦ (1, Answers-same g (ground (arith, t)))
  | inr t ↦
      let (least, rest) = Leads-check_from g target leads in
      (suc least, Answers-next g target a l least true (ground (arith, t)) e rest)
]

-- One that misses it is answered with false.
pub Misses-check_from :
    (g : Graph) (target : ℕ) {cur : Option ℕ}
    → Misses g target cur
    → (least : ℕ) × Answers g target cur false least
Misses-check_from g target miss_free = (1, Answers-free g target)
Misses-check_from g target (miss_runs a ne e) = (1, Answers-runs g target a ne e)
Misses-check_from g target (miss_waits a l ne e misses) =
    let (least, rest) = Misses-check_from g target misses in
    (suc least, Answers-next g target a l least false ne e rest)

-- One that misses `target` still ends when `target` waits for something.
pub Misses-Ends :
    (g : Graph) (target l : ℕ) {cur : Option ℕ}
    → Misses g target cur
    → Ends (record g { a_waiting = update g.a_waiting target (some l) }) cur
Misses-Ends g target l miss_free = free
Misses-Ends g target l (miss_runs a ne e) = runs a (ground (arith, e))
Misses-Ends g target l (miss_waits a m ne e misses) =
    waits a m (ground (arith, e)) (Misses-Ends g target l misses)

-- Answered with false, the walk misses `target`.
pub check_from-Misses :
    (g : Graph) (target fuel : ℕ) (cur : Option ℕ)
    → check_from fuel g target cur ≡ some false
    → Misses g target cur
unfolding check_from
check_from-Misses g target zero cur h = ground (arith, h)
check_from-Misses g target (suc fuel) none h = miss_free
check_from-Misses g target (suc fuel) (some a) h = elim (Bool-cases (a == target)) [
  | inl t ↦ ground (arith, t, h)
  | inr t ↦ elim (Option-cases (g.a_waiting a)) [
    | inl e ↦ miss_runs a (ground (arith, t)) e
    | inr (l, e) ↦
        miss_waits a l (ground (arith, t)) e
          (check_from-Misses g target fuel (g.l_holding l) (ground (arith, t, e, h)))
  ]
]

-- No walk both comes to `target` and misses it.
pub Leads-Misses :
    (g : Graph) (target : ℕ) {cur : Option ℕ} → Leads g target cur → ¬ Misses g target cur
Leads-Misses g target here (miss_runs a ne e) = ne refl
Leads-Misses g target here (miss_waits a l ne e m) = ne refl
Leads-Misses g target (next a l e w) (miss_runs b ne f) = ground (arith, e, f)
Leads-Misses g target (next a l e w) (miss_waits b k ne f m) =
    Leads-Misses g target w (subst (λ x. Misses g target (g.l_holding x)) (ground (arith, e, f)) m)
