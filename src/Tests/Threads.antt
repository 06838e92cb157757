-- ===== src/Tests/Threads.antt =====
-- A list of two threads, and waits of three actors.
use os22_crisologo_minichell.Base.{
  ℕ, ◌==◌, ◌≡◌, refl, arith, if◌then◌else◌, inl, inr, Bool-cases, none, some, ◌≤◌, ok, Outcome,
}
use os22_crisologo_minichell.ThreadList.{Nodes, ThreadList}
use os22_crisologo_minichell.Hangman.{Graph, update, check_from, hangman_check, hangman_wait}
use os22_crisologo_minichell.Hangman.Walk.{Ends, runs, waits}
use os22_crisologo_minichell.Hangman.Safe.{IsAcyclic, Verdict, hangman_wait_lem}
use os22_crisologo_minichell.Hangman.Steps.{IsWf, Reach, start, after, wait, CanGoOn, Reach-CanGoOn}

-- Threads 10 and 11 between the bookends 1 and 2; every thread's node is its own.
abbrev two_threads : Nodes
two_threads = record {
  tln_next = λ i.
      if i == 1 then some 10 else if i == 10 then some 11 else if i == 11 then some 2 else none;
  tln_prev = λ i.
      if i == 2 then some 11 else if i == 11 then some 10 else if i == 10 then some 1 else none;
  tln_self = λ i. some i;
}

abbrev two_list : ThreadList
two_list = record { tl_head = 1; tl_tail = 2; tl_count = 2 }

-- Actor 1 holds lock 7, actor 2 holds lock 8 and waits for lock 7; lock 0 is the detector's.
abbrev waiting : Graph
waiting = record {
  a_waiting = λ a. if a == 2 then some 7 else none;
  l_holding = λ l. if l == 7 then some 1 else if l == 8 then some 2 else none;
}

runs_1 : Ends waiting (some 1)
runs_1 = runs 1 refl

waiting-IsAcyclic : IsAcyclic waiting
unfolding IsAcyclic
waiting-IsAcyclic a = elim (Bool-cases (2 == a)) [
  | inl t ↦ waits a 7 (ground (arith, t)) runs_1
  | inr t ↦ runs a (ground (arith, t))
]

hangman_wait_lem_example :
    (least : ℕ) × (r : Outcome Graph) × ((fuel : ℕ)
      → least ≤ fuel
      → hangman_wait 0 fuel 1 8 waiting ≡ some r)
    × Verdict 0 waiting 1 8 r
hangman_wait_lem_example = hangman_wait_lem 0 waiting 1 8 waiting-IsAcyclic refl (ground arith)

waiting-IsWf : IsWf 0 waiting
waiting-IsWf = record { ends = waiting-IsAcyclic; tracked = λ a e. ground (arith, e) }

-- Actor 3 waits for lock 8 as well.
abbrev all_waiting : Graph
all_waiting = record waiting { a_waiting = update waiting.a_waiting 3 (some 8) }

waiting-wait : hangman_wait 0 4 3 8 waiting ≡ some (ok all_waiting)
unfolding hangman_wait hangman_check check_from
waiting-wait = refl

waiting-Reach : Reach 0 waiting all_waiting
waiting-Reach = after start (wait 4 3 8 waiting-wait)

Reach-CanGoOn_example : CanGoOn 0 all_waiting
Reach-CanGoOn_example = Reach-CanGoOn 0 3 8 waiting-IsWf waiting-Reach refl
