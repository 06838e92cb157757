-- ===== src/Array/Refine.antt =====
-- An array holds a sequence of pointers, and every operation does on the array what it does on the
-- sequence.
use os22_crisologo_minichell.Base.{
  ℕ, suc, ◌+◌, ◌-◌, ◌<◌, ◌≤◌, ◌≡◌, ◌^◌, refl, sym, ap, subst, ◌∙◌, ◌⊎◌, inl, inr, true, false, none,
  some, Option, List, [], ◌∷◌, ◌++◌, arith, ltb, leb, ◌==◌, ◌||◌, ◌&&◌, if◌then◌else◌, mul32, add32,
  length, get_elem?, set, Bool-cases, Option-cases, Outcome, ok, panic, ◌>>=◌, length-append,
  length-set, get_elem?-set_self, get_elem?-set_ne, lt_of_get_elem?, eq_of_==, ne_of_==,
}
use os22_crisologo_minichell.Array.{
  Array, Kmalloc, enomem, grow, copied, moved_to, in_bytes, behind, store_at, array_preallocate,
  array_setsize, array_get, store, array_set, array_add, closed_up, array_remove,
}
use os22_crisologo_minichell.Array.Grow.{grow_lem}
use os22_crisologo_minichell.Array.Remove.{
  remove_at, length-remove_at, get_elem?-remove_at, get_elem?-append,
}

-- The array holds the pointers `xs`, in this order.
pub record Represents (a : Array) (xs : List ℕ) : Type 0 where
  pub counted : a.num ≡ length xs
  pub room : a.num ≤ a.max
  pub block : a.max ≤ a.cap
  pub each : (i : ℕ) → i < length xs → get_elem? xs i ≡ some (a.v i)

pub data ArrayOp : Type 0 where
  get_at : (index : ℕ) → ArrayOp
  set_at : (index val : ℕ) → ArrayOp
  add : (val : ℕ) → ArrayOp
  remove : (index : ℕ) → ArrayOp

-- the pointer that array_get returns, or the result of the others
pub data Reply : Type 0 where
  value : ℕ → Reply
  result : ℕ → Reply

-- What a call does: it does not end with the fuel, or it panics, or it returns.
unfoldable pub run : (fuel : ℕ) → Kmalloc → ArrayOp → Array → Option (Outcome (Reply × Array))
run fuel kmalloc (get_at index) a = some (array_get index a >>= λ x. ok (value x, a))
run fuel kmalloc (set_at index val) a = some (array_set index val a >>= λ a'. ok (result 0, a'))
run fuel kmalloc (add val) a = elim (array_add fuel kmalloc val a) [
  | none ↦ none
  | some out ↦ some (out >>= λ (r, a'). ok (result r, a'))
]
run fuel kmalloc (remove index) a = some (array_remove index a >>= λ a'. ok (result 0, a'))

-- What is promised of the sequence; `none` for an index that is out of it.
unfoldable pub promised : ArrayOp → List ℕ → Option (Reply × List ℕ)
unfolding remove_at
promised (get_at i) xs = elim (get_elem? xs i) [ none ↦ none | some x ↦ some (value x, xs) ]
promised (set_at i x) xs = if ltb i (length xs) then some (result 0, set xs i x) else none
promised (add x) xs = some (result 0, xs ++ (x ∷ []))
promised (remove i) xs = if ltb i (length xs) then some (result 0, remove_at i xs) else none

-- The call does what is promised, or fails for want of memory and changes nothing.
pub data Does (kmalloc : Kmalloc) (op : ArrayOp) (a : Array) (xs : List ℕ) : Type 0 where
  done :
      (r : Reply) (ys : List ℕ) (a' : Array)
      → promised op xs ≡ some (r, ys)
      → run 32 kmalloc op a ≡ some (ok (r, a'))
      → Represents a' ys
      → Does kmalloc op a xs
  out_of_memory : run 32 kmalloc op a ≡ some (ok (result enomem, a)) → Does kmalloc op a xs
  out_of_range : promised op xs ≡ none → run 32 kmalloc op a ≡ some panic → Does kmalloc op a xs

none_at : (xs : List ℕ) (i : ℕ) → ltb i (length xs) ≡ false → get_elem? xs i ≡ none
none_at xs i y = elim (Option-cases (get_elem? xs i)) [
  | inl e ↦ e
  | inr (x, e) ↦ absurd (ground (arith, y, lt_of_get_elem? xs i e))
]

before : (i j : ℕ) {n : ℕ} → (i == j) ≡ true → j < n → i < n
before i j y l = ground (arith, y, l)

module _ {a : Array} {xs : List ℕ} (w : Represents a xs) where
  stored-Represents : (i x : ℕ) → Represents (store i x a) (set xs i x)
  stored-Represents i x = record {
    counted = w.counted ∙ sym (length-set xs i x);
    room = w.room;
    block = w.block;
    each = λ j l. elim (Bool-cases (i == j)) [
      | inl y ↦ rw y (
          subst (λ k. get_elem? (set xs i x) k ≡ some x) (eq_of_== i j y)
            (get_elem?-set_self xs i x (before i j y (omega (arith, l, length-set xs i x)))))
      | inr y ↦ rw y (
          get_elem?-set_ne xs i j x (ne_of_== i j y)
          ∙ w.each j (omega (arith, l, length-set xs i x)))
    ];
  }

  behind_lem : (i : ℕ) → length xs < 2 ^ 29 → i < length xs → behind i a ≡ length xs - (i + 1)
  behind_lem i small l = omega (arith, small, l, w.counted)

  closed :
      (i j : ℕ)
      → length xs < 2 ^ 29
      → i < length xs
      → j + 1 < length xs
      → (if ltb j i then get_elem? xs j else get_elem? xs (suc j)) ≡ some (closed_up i a j)
  closed i j small li l =
      let b = behind_lem i small li in
      let up : suc j ≡ j + 1 = omega arith in
      let next : get_elem? xs (suc j) ≡ some (a.v (j + 1)) = rw up (w.each (j + 1) l) in
      rw b (ground (arith, l, li, w.each j (omega (arith, l)), next))

  removed-Represents :
      (i : ℕ)
      → length xs < 2 ^ 29
      → i < length xs
      → Represents (record a { v = closed_up i a; num = a.num - 1 }) (remove_at i xs)
  removed-Represents i small l =
      let shorter = length-remove_at i xs l in
      record {
        counted = omega (arith, shorter, w.counted);
        room = omega (arith, w.room);
        block = w.block;
        each =
            λ j m. get_elem?-remove_at i j xs ∙ closed i j small l (omega (arith, m, shorter, l));
      }

  ending :
      (x : ℕ) (block : ℕ → ℕ)
      → ((i : ℕ) → i < a.num → block i ≡ a.v i)
      → (j : ℕ) → j < length xs + 1
      → (if j == length xs then some x else get_elem? xs j)
        ≡ some (if a.num == j then x else block j)
  ending x block same j l = elim (Bool-cases (j == length xs)) [
    | inl y ↦ let z : (a.num == j) ≡ true = ground (arith, y, w.counted) in rw y (rw z refl)
    | inr y ↦
        let m : j < length xs = ground (arith, y, l) in
        let z : (a.num == j) ≡ false = ground (arith, y, w.counted) in
        rw y (rw z (w.each j m ∙ ap some (sym (same j (omega (arith, m, w.counted))))))
  ]

  -- one more at the end, in a block with room for it
  added-Represents :
      (x m : ℕ) (block : ℕ → ℕ)
      → a.num + 1 ≤ m
      → (c : ℕ) → m ≤ c
      → ((i : ℕ) → i < a.num → block i ≡ a.v i)
      → Represents
          (store a.num x (record { num = a.num + 1; max = m; cap = c; v = block }))
          (xs ++ (x ∷ []))
  added-Represents x m block r c fits same = record {
    counted = omega (arith, w.counted, length-append xs (x ∷ []));
    room = r;
    block = fits;
    each = λ j l.
        get_elem?-append xs x j (omega (arith, length-append xs (x ∷ []), l))
        ∙ ending x block same j (omega (arith, length-append xs (x ∷ []), l));
  }

module _ (kmalloc : Kmalloc) {a : Array} {xs : List ℕ} (w : Represents a xs) where
  inside : (i : ℕ) → ltb i (length xs) ≡ true → ltb i a.num ≡ true
  inside i y = ground (arith, y, w.counted)

  held : (i : ℕ) → ltb i (length xs) ≡ true → ltb i a.cap ≡ true
  held i y = ground (arith, y, w.counted, w.room, w.block)

  outside : (i : ℕ) → ltb i (length xs) ≡ false → ltb i a.num ≡ false
  outside i y = ground (arith, y, w.counted)

  get_at-Does : (i : ℕ) → Does kmalloc (get_at i) a xs
  unfolding run promised array_get
  get_at-Does i = elim (Bool-cases (ltb i (length xs))) [
    | inl y ↦
        let e = w.each i (ground (arith, y)) in
        let b = inside i y in
        let c = held i y in done (value (a.v i)) xs a (rw (e, promised) refl) (rw b (rw c refl)) w
    | inr y ↦ let b = outside i y in out_of_range (rw (none_at xs i y, promised) refl) (rw b refl)
  ]

  set_at-Does : (i x : ℕ) → Does kmalloc (set_at i x) a xs
  unfolding run promised array_set store_at
  set_at-Does i x = elim (Bool-cases (ltb i (length xs))) [
    | inl y ↦
        let b = inside i y in
        done (result 0) (set xs i x) (store i x a) (rw y refl) (rw b (rw (held i y) refl))
          (stored-Represents w i x)
    | inr y ↦ let b = outside i y in out_of_range (rw y refl) (rw b refl)
  ]

  moves :
      (i : ℕ)
      → length xs < 2 ^ 29
      → ltb i (length xs) ≡ true
      → (behind i a == 0 || leb (i + 1 + behind i a) a.cap) ≡ true
  moves i small y =
      let b = behind_lem w i small (ground (arith, y)) in
      rw b (ground (arith, y, w.counted, w.room, w.block))

  remove-Does : (i : ℕ) → length xs < 2 ^ 29 → Does kmalloc (remove i) a xs
  unfolding run promised array_remove
  remove-Does i small = elim (Bool-cases (ltb i (length xs))) [
    | inl y ↦
        let b = inside i y in
        let c : leb a.num a.max ≡ true = ground (arith, w.room) in
        done (result 0) (remove_at i xs) (record a { v = closed_up i a; num = a.num - 1 })
          (rw y refl) (rw c (rw b (rw (moves i small y) refl)))
          (removed-Represents w i small (ground (arith, y)))
    | inr y ↦
        let b = outside i y in
        let c : leb a.num a.max ≡ true = ground (arith, w.room) in
        out_of_range (rw y refl) (rw c (rw b refl))
  ]

  array_setsize-same :
      (fuel num : ℕ)
      → ltb a.max num ≡ false
      → array_setsize fuel kmalloc num a ≡ some (ok (0, record a { num = num }))
  unfolding array_setsize array_preallocate
  array_setsize-same fuel num y = rw (y, array_setsize) refl

  array_setsize-full :
      (fuel num m : ℕ)
      → ltb a.max num ≡ true
      → grow fuel num a.max ≡ some m
      → kmalloc (mul32 m 4) ≡ none
      → array_setsize fuel kmalloc num a ≡ some (ok (enomem, a))
  unfolding array_setsize array_preallocate
  array_setsize-full fuel num m y g e = rw (y, g, e, array_setsize, moved_to) refl

  array_setsize-moved :
      (fuel num m : ℕ) (block : ℕ → ℕ)
      → ltb a.max num ≡ true
      → grow fuel num a.max ≡ some m
      → kmalloc (mul32 m 4) ≡ some block
      → m < 2 ^ 30
      → a.num ≤ m
      → array_setsize fuel kmalloc num a
        ≡ some (ok (0, record { num = num; max = m; cap = m; v = copied a.num a.v block }))
  unfolding array_setsize array_preallocate
  array_setsize-moved fuel num m block y g e small fits =
      let p : in_bytes m ≡ m = omega (arith, small) in
      let q : in_bytes a.num ≡ a.num = omega (arith, small, fits) in
      let z : (leb a.num a.cap && leb a.num m) ≡ true = ground (arith, fits, w.room, w.block) in
      rw (y, g, e, array_setsize, moved_to, p, q, z) refl

  -- Room for one more, in the same block or a new one.
  more_room :
      length xs < 2 ^ 29
      → (array_setsize 32 kmalloc (a.num + 1) a ≡ some (ok (enomem, a)))
        ⊎ ((m : ℕ) × (c : ℕ) × (block : ℕ → ℕ) × (array_setsize 32 kmalloc (a.num + 1) a
              ≡ some (ok (0, record { num = a.num + 1; max = m; cap = c; v = block })))
            × (a.num + 1 ≤ m)
            × (m ≤ c)
            × ((i : ℕ) → i < a.num → block i ≡ a.v i))
  more_room l = elim (Bool-cases (ltb a.max (a.num + 1))) [
    | inr y ↦ inr (
      a.max,
      a.cap,
      a.v,
      array_setsize-same 32 (a.num + 1) y,
      ground (arith, y),
      w.block,
      λ i q. refl,
    )
    | inl y ↦
        let (m, g, enough, size) = grow_lem (a.num + 1) a.max (omega (arith, l, w.counted)) in
        let small : m < 2 ^ 30 = ground (arith, l, w.counted, size, y, enough) in
        elim (Option-cases (kmalloc (mul32 m 4))) [
          | inl e ↦ inl (array_setsize-full 32 (a.num + 1) m y g e)
          | inr (block, e) ↦ inr (
            m,
            m,
            copied a.num a.v block,
            array_setsize-moved 32 (a.num + 1) m block y g e small (omega (arith, enough)),
            enough,
            omega arith,
            λ i q. ground (arith, q),
          )
        ]
  ]

  run-add :
      (fuel num x : ℕ) (a' : Array)
      → add32 a.num 1 ≡ num
      → array_setsize fuel kmalloc num a ≡ some (ok (0, a'))
      → a.num < a'.cap
      → run fuel kmalloc (add x) a ≡ some (ok (result 0, store a.num x a'))
  unfolding run array_add store_at
  run-add fuel num x a' exact e l =
      let z : ltb a.num a'.cap ≡ true = ground (arith, l) in rw (exact, e, run, z) refl

  run-add-full :
      (fuel num x : ℕ)
      → add32 a.num 1 ≡ num
      → array_setsize fuel kmalloc num a ≡ some (ok (enomem, a))
      → run fuel kmalloc (add x) a ≡ some (ok (result enomem, a))
  unfolding run array_add
  run-add-full fuel num x exact e = rw (exact, e, run) refl

  add-Does : (x : ℕ) → length xs < 2 ^ 29 → Does kmalloc (add x) a xs
  unfolding promised
  add-Does x l =
      let exact : add32 a.num 1 ≡ a.num + 1 = omega (arith, l, w.counted) in
      elim (more_room l) [
        | inl e ↦ out_of_memory (run-add-full 32 (a.num + 1) x exact e)
        | inr (m, c, block, e, enough, fits, same) ↦
            let a' : Array = record { num = a.num + 1; max = m; cap = c; v = block } in
            done (result 0) (xs ++ (x ∷ [])) (store a.num x a') refl
              (run-add 32 (a.num + 1) x a' exact e (omega (arith, enough, fits)))
              (added-Represents w x m block enough c fits same)
      ]

-- If the array holds a sequence of fewer than 2 ^ 29 pointers in a block that has room for all of
-- its capacity, array_get, array_set, array_add and array_remove end within 32 turns of the loop
-- of array_preallocate and do on it what they promise of the sequence, whatever kmalloc gives, and
-- no access is past the block: the array then holds the new sequence in such a block. An index out
-- of the sequence is a panic, and array_add may fail with ENOMEM, which changes nothing.
pub run-Does :
    (kmalloc : Kmalloc) (op : ArrayOp) {a : Array} {xs : List ℕ}
    → Represents a xs
    → length xs < 2 ^ 29
    → Does kmalloc op a xs
run-Does kmalloc (get_at i) w l = get_at-Does kmalloc w i
run-Does kmalloc (set_at i x) w l = set_at-Does kmalloc w i x
run-Does kmalloc (add x) w l = add-Does kmalloc w x l
run-Does kmalloc (remove i) w l = remove-Does kmalloc w i l
