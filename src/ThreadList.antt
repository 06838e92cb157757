-- ===== src/ThreadList.antt =====
-- thread/threadlist.c: doubly linked lists of threads over a store of list nodes. A node is named by
-- a number, and the thread whose t_listnode it is by the same number. DEBUGASSERT does nothing, as
-- include/lib.h defines it.
pub mod Chain
pub mod Edit
pub mod Sequence
pub mod Refine
use os22_crisologo_minichell.Base.{
  ℕ, suc, ◌+◌, ◌-◌, Bool, true, false, not, Option, none, some, ◌==◌, ltb, if◌then◌else◌, add32,
  sub32, Outcome, ok, panic, fault, ◌>>=◌, ◌>>◌, kassert,
}

-- The fields of all nodes: `none` is NULL.
pub record Nodes : Type 0 where
  pub tln_prev : ℕ → Option ℕ
  pub tln_next : ℕ → Option ℕ
  pub tln_self : ℕ → Option ℕ

-- The addresses of the two bookends, and the count.
pub record ThreadList : Type 0 where
  pub tl_head : ℕ
  pub tl_tail : ℕ
  pub tl_count : ℕ

-- a field of one node assigned
abbrev pub assign : (ℕ → Option ℕ) → ℕ → Option ℕ → ℕ → Option ℕ
assign f a v x = if a == x then v else f x

abbrev pub set_prev : ℕ → Option ℕ → Nodes → Nodes
set_prev a v s = record s { tln_prev = assign s.tln_prev a v }

abbrev pub set_next : ℕ → Option ℕ → Nodes → Nodes
set_next a v s = record s { tln_next = assign s.tln_next a v }

-- a pointer that is followed
abbrev pub deref : Option ℕ → Outcome ℕ
deref none = fault
deref (some a) = ok a

unfoldable pub threadlistnode_init : ℕ → ℕ → Nodes → Nodes
threadlistnode_init tln t s = record {
  tln_prev = assign s.tln_prev tln none;
  tln_next = assign s.tln_next tln none;
  tln_self = assign s.tln_self tln (some t);
}

abbrev pub is_null : Option ℕ → Bool
is_null none = true
is_null (some a) = false

unfoldable pub threadlistnode_cleanup : ℕ → Nodes → Outcome (Unit {0})
threadlistnode_cleanup tln s =
    kassert (is_null (s.tln_next tln))
    >> (kassert (is_null (s.tln_prev tln)) >> kassert (not (is_null (s.tln_self tln))))

unfoldable pub threadlist_init : ThreadList → Nodes → ThreadList × Nodes
threadlist_init tl s = (
  record tl { tl_count = 0 },
  record {
    tln_next = assign (assign s.tln_next tl.tl_head (some tl.tl_tail)) tl.tl_tail none;
    tln_prev = assign (assign s.tln_prev tl.tl_head none) tl.tl_tail (some tl.tl_head);
    tln_self = assign (assign s.tln_self tl.tl_head none) tl.tl_tail none;
  },
)

unfoldable pub threadlist_isempty : ThreadList → Bool
threadlist_isempty tl = tl.tl_count == 0

unfoldable pub threadlist_cleanup : ThreadList → Outcome (Unit {0})
unfolding threadlist_isempty
threadlist_cleanup tl = kassert (threadlist_isempty tl) >> kassert (tl.tl_count == 0)

-- The last two assignments of both insertions: the neighbours of `addee` are made to point at it.
unfoldable pub link_neighbours : ℕ → Nodes → Outcome Nodes
link_neighbours addee s = do
  p ← deref (s.tln_prev addee)
  let s' = set_next p (some addee) s
  n ← deref (s'.tln_next addee)
  ok (set_prev n (some addee) s')

unfoldable pub insert_after_node : ℕ → ℕ → Nodes → Outcome Nodes
unfolding link_neighbours
insert_after_node onlist t s =
    let s' = set_prev t (some onlist) s in link_neighbours t (set_next t (s'.tln_next onlist) s')

unfoldable pub insert_before_node : ℕ → ℕ → Nodes → Outcome Nodes
unfolding link_neighbours
insert_before_node t onlist s =
    let s' = set_prev t (s.tln_prev onlist) s in link_neighbours t (set_next t (some onlist) s')

unfoldable pub remove_node : ℕ → Nodes → Outcome Nodes
remove_node tln s = do
  p ← deref (s.tln_prev tln)
  let s' = set_next p (s.tln_next tln) s
  n ← deref (s'.tln_next tln)
  ok (set_next tln none (set_prev tln none (set_prev n (s'.tln_prev tln) s')))

-- What every function that changes the list returns.
abbrev pub Changed : Type 0
Changed = Outcome (Option ℕ × ThreadList × Nodes)

abbrev pub one_more : ThreadList → ThreadList
one_more tl = record tl { tl_count = add32 tl.tl_count 1 }

abbrev pub one_less : ThreadList → ThreadList
one_less tl = record tl { tl_count = sub32 tl.tl_count 1 }

unfoldable pub threadlist_addhead : ℕ → ThreadList → Nodes → Changed
unfolding insert_after_node
threadlist_addhead t tl s = do s ← insert_after_node tl.tl_head t s; ok (none, one_more tl, s)

unfoldable pub threadlist_addtail : ℕ → ThreadList → Nodes → Changed
unfolding insert_before_node
threadlist_addtail t tl s = do s ← insert_before_node t tl.tl_tail s; ok (none, one_more tl, s)

-- `tln` taken off, or NULL if `end` is, which tells that `tln` is a bookend
unfoldable pub take_node : ℕ → Option ℕ → ThreadList → Nodes → Changed
unfolding remove_node
take_node tln none tl s = ok (none, tl, s)
take_node tln (some other) tl s = do s ← remove_node tln s; ok (s.tln_self tln, one_less tl, s)

unfoldable pub threadlist_remhead : ThreadList → Nodes → Changed
unfolding take_node
threadlist_remhead tl s = do
  tln ← deref (s.tln_next tl.tl_head)
  take_node tln (s.tln_next tln) tl s

unfoldable pub threadlist_remtail : ThreadList → Nodes → Changed
unfolding take_node
threadlist_remtail tl s = do
  tln ← deref (s.tln_prev tl.tl_tail)
  take_node tln (s.tln_prev tln) tl s

unfoldable pub threadlist_insertafter : ℕ → ℕ → ThreadList → Nodes → Changed
unfolding insert_after_node
threadlist_insertafter onlist addee tl s = do
  s ← insert_after_node onlist addee s
  ok (none, one_more tl, s)

unfoldable pub threadlist_insertbefore : ℕ → ℕ → ThreadList → Nodes → Changed
unfolding insert_before_node
threadlist_insertbefore addee onlist tl s = do
  s ← insert_before_node addee onlist s
  ok (none, one_more tl, s)

unfoldable pub threadlist_remove : ℕ → ThreadList → Nodes → Changed
unfolding remove_node
threadlist_remove t tl s = do s ← remove_node t s; ok (none, one_less tl, s)
