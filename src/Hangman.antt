-- ===== src/Hangman.antt =====
-- thread/hangman.c: the deadlock detector. Actors and lockables are named by numbers; `own` is the
-- lockable of the detector's own spinlock, which it does not track. The walk of hangman_check has no
-- bound of its own: it runs on fuel here, and `none` says that the fuel did not do.
pub mod Walk
pub mod Safe
pub mod Steps
use os22_crisologo_minichell.Base.{
  ℕ, zero, suc, Bool, true, false, not, Option, none, some, ◌==◌, if◌then◌else◌, Outcome, ok, panic,
  fault,
}

-- `a_waiting` of every actor, and `l_holding` of every lockable.
pub record Graph : Type 0 where
  pub a_waiting : ℕ → Option ℕ
  pub l_holding : ℕ → Option ℕ

-- one pointer assigned
abbrev pub update : (ℕ → Option ℕ) → ℕ → Option ℕ → ℕ → Option ℕ
update f a v x = if a == x then v else f x

-- The loop of hangman_check from `cur` on: whether it comes to `target`.
unfoldable pub check_from : ℕ → Graph → ℕ → Option ℕ → Option Bool
check_from zero g target cur = none
check_from (suc fuel) g target none = some false
check_from (suc fuel) g target (some cur) =
    if cur == target then some true else elim (g.a_waiting cur) [
      | none ↦ some false
      | some l ↦ check_from fuel g target (g.l_holding l)
    ]

unfoldable pub hangman_check : ℕ → Graph → ℕ → ℕ → Option (Outcome (Unit {0}))
unfolding check_from
hangman_check fuel g start target = elim (check_from fuel g target (g.l_holding start)) [
  | none ↦ none
  | some found ↦ some (if found then panic else ok tt)
]

-- Whether the pointer is the given one.
abbrev pub is_at : Option ℕ → ℕ → Bool
is_at none x = false
is_at (some y) x = y == x

abbrev pub is_null : Option ℕ → Bool
is_null none = true
is_null (some y) = false

module _ (own : ℕ) where
  unfoldable pub hangman_wait : ℕ → ℕ → ℕ → Graph → Option (Outcome Graph)
  unfolding hangman_check
  hangman_wait fuel a l g =
      if l == own
      then some (ok g)
      else if not (is_null (g.a_waiting a))
      then some panic
      else elim (hangman_check fuel g l a) [
        | none ↦ none
        | some panic ↦ some panic
        | some (ok u) ↦ some (ok (record g { a_waiting = update g.a_waiting a (some l) }))
        | some fault ↦ some fault
      ]

  unfoldable pub hangman_acquire : ℕ → ℕ → Graph → Outcome Graph
  hangman_acquire a l g =
      if l == own
      then ok g
      else if not (is_at (g.a_waiting a) l)
      then panic
      else if not (is_null (g.l_holding l))
      then panic
      else ok (record {
        l_holding = update g.l_holding l (some a);
        a_waiting = update g.a_waiting a none;
      })

  unfoldable pub hangman_release : ℕ → ℕ → Graph → Outcome Graph
  hangman_release a l g =
      if l == own
      then ok g
      else if not (is_null (g.a_waiting a))
      then panic
      else if not (is_at (g.l_holding l) a)
      then panic
      else ok (record g { l_holding = update g.l_holding l none })
