-- ===== src/Uio.antt =====
-- uiomove of lib/uio.c over the structures of include/uio.h. Bytes are not moved here but listed: what
-- memmove, copyin and copyout are called with. The results of copyin and copyout are a parameter.
pub mod Bytes
pub mod Whole
use os22_crisologo_minichell.Base.{
  ℕ, zero, suc, ◌+◌, ◌-◌, ◌%◌, ◌^◌, Bool, true, false, ◌||◌, Option, none, some, List, [], ◌∷◌,
  ◌++◌, ltb, ◌==◌, if◌then◌else◌, sub32, add32, Outcome, ok, panic, fault,
}

pub record Iovec : Type 0 where
  pub base : ℕ
  pub len : ℕ

pub data Segment : Type 0 where
  user_ispace user_space sys_space : Segment

-- `writing` is uio_rw == UIO_WRITE.
pub record Uio : Type 0 where
  pub iov : List Iovec
  pub offset : ℕ
  pub resid : ℕ
  pub segflg : Segment
  pub writing : Bool

-- `size` bytes between the buffer's address and the kernel's
pub record Move : Type 0 where
  pub buffer : ℕ
  pub ptr : ℕ
  pub size : ℕ

-- what copyin or copyout of a move returns
abbrev pub Copy : Type 0
Copy = (writing : Bool) → Move → ℕ

-- the switch on uio_segflg
abbrev pub moved : Copy → Uio → Move → ℕ
moved copy uio m = elim uio.segflg [
  | sys_space ↦ 0
  | user_space ↦ copy uio.writing m
  | user_ispace ↦ copy uio.writing m
]

-- the result, the uio, and the moves so far
abbrev pub Answer : Type 0
Answer = Outcome (ℕ × Uio × List Move)

-- A turn of the loop ends it or goes on with another pointer, number of bytes and uio.
pub data Turn : Type 0 where
  stop : Answer → Turn
  go_on : ℕ → ℕ → Uio → List Move → Turn

-- the rest of a turn that moves `size` bytes of the first buffer
unfoldable pub move_some : Copy → (size ptr n : ℕ) → Iovec → List Iovec → Uio → List Move → Turn
move_some copy size ptr n v vs uio log =
    let m : Move = record { buffer = v.base; ptr = ptr; size = size } in
    let result = moved copy uio m in
    if result == 0
    then go_on (add32 ptr size) (n - size)
        (record uio {
          iov = record { base = add32 v.base size; len = v.len - size } ∷ vs;
          resid = sub32 uio.resid size;
          offset = (uio.offset + size) % 2 ^ 64;
        })
        (log ++ (m ∷ []))
    else stop (ok (result, uio, log))

-- the first buffer is empty
unfoldable pub next_buffer : (ptr n : ℕ) → List Iovec → Uio → List Move → Turn
next_buffer ptr n [] uio log = stop panic
next_buffer ptr n (v ∷ vs) uio log = go_on ptr n (record uio { iov = v ∷ vs }) log

abbrev pub size_of : ℕ → Iovec → ℕ
size_of n v = if ltb n v.len then n else v.len

unfoldable pub turn : Copy → (ptr n : ℕ) → Uio → List Move → Turn
turn copy ptr n uio log =
    if n == 0 || uio.resid == 0 then stop (ok (0, uio, log)) else elim uio.iov [
      | [] ↦ stop fault
      | v ∷ vs ↦
          if size_of n v == 0
          then next_buffer ptr n vs uio log
          else move_some copy (size_of n v) ptr n v vs uio log
    ]

-- the loop of uiomove; `none` when the fuel does not reach the end of the loop
unfoldable pub move_bytes : (fuel : ℕ) → Copy → (ptr n : ℕ) → Uio → List Move → Option Answer
move_bytes zero copy ptr n uio log = none
move_bytes (suc fuel) copy ptr n uio log = elim (turn copy ptr n uio log) [
  | stop answer ↦ some answer
  | go_on ptr' n' uio' log' ↦ move_bytes fuel copy ptr' n' uio' log'
]

-- `space_fits`: uio_space is NULL for kernel memory, and the process's address space for user memory.
unfoldable pub uiomove :
    (space_fits : Bool) (fuel : ℕ) → Copy → (ptr n : ℕ) → Uio → List Move → Option Answer
uiomove space_fits fuel copy ptr n uio log =
    if space_fits then move_bytes fuel copy ptr n uio log else some panic
