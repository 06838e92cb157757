-- ===== src/Uio/Whole.antt =====
-- uiomove of a whole request.
use os22_crisologo_minichell.Base.{
  ℕ, zero, suc, ◌+◌, ◌-◌, ◌%◌, ◌<◌, ◌≤◌, ◌≡◌, ◌≢◌, ◌^◌, refl, sym, ap, subst, ◌∙◌, inl, inr, Bool,
  true, false, ◌||◌, some, List, [], ◌∷◌, ◌++◌, arith, ltb, ◌==◌, sub32, add32, ok, Bool-cases,
  Option,
}
use mathlib.Core.List.{append_assoc, append-nil}
use os22_crisologo_minichell.Uio.{
  uiomove, Iovec, Uio, Segment, sys_space, user_space, user_ispace, Move, Copy, moved, go_on,
  move_some, next_buffer, size_of, turn, move_bytes, Answer,
}
use os22_crisologo_minichell.Uio.Bytes.{
  place, total, pairs, all_bytes, rest_of, place-rest, place-empty, pairs-split, listed, bytes_of,
  listed-same,
}

-- the turns that are enough for the buffers
abbrev pub turns : List Iovec → ℕ
turns [] = 1
turns (v ∷ vs) = suc (suc (turns vs))

module _ (copy : Copy) (segflg : Segment) (writing : Bool) where
  abbrev pub uio_of : List Iovec → (offset resid : ℕ) → Uio
  uio_of iov offset resid = record {
    iov = iov;
    offset = offset;
    resid = resid;
    segflg = segflg;
    writing = writing;
  }

  move_bytes-none :
      (fuel ptr offset resid : ℕ) (iov : List Iovec) (log : List Move)
      → move_bytes (suc fuel) copy ptr 0 (uio_of iov offset resid) log
        ≡ some (ok (0, uio_of iov offset resid, log))
  unfolding move_bytes turn
  move_bytes-none fuel ptr offset resid iov log = refl

  move_bytes-drop :
      (fuel ptr n offset resid : ℕ) (v w : Iovec) (ws : List Iovec) (log : List Move)
      → n ≢ 0
      → resid ≢ 0
      → v.len ≡ 0
      → move_bytes (suc fuel) copy ptr n (uio_of (v ∷ w ∷ ws) offset resid) log
        ≡ move_bytes fuel copy ptr n (uio_of (w ∷ ws) offset resid) log
  unfolding move_bytes turn next_buffer
  move_bytes-drop fuel ptr n offset resid v w ws log nz rz z =
      let a : (n == 0 || resid == 0) ≡ false = ground (arith, nz, rz) in
      let b : (size_of n v == 0) ≡ true = ground (arith, z) in rw (a, b, move_bytes) refl

  module _ (good : (m : Move) → copy writing m ≡ 0) where
    moved-good :
        (iov : List Iovec) (offset resid : ℕ) (m : Move)
        → moved copy (uio_of iov offset resid) m ≡ 0
    moved-good iov offset resid m = by_segment segflg
      where
        by_segment :
            (s : Segment)
            → (elim s [
              | sys_space ↦ 0
              | user_space ↦ copy writing m
              | user_ispace ↦ copy writing m
            ])
              ≡ 0
        by_segment sys_space = refl
        by_segment user_space = good m
        by_segment user_ispace = good m

    move_some-good :
        (ptr n offset resid s : ℕ) (v : Iovec) (vs : List Iovec) (log : List Move)
        → move_some copy s ptr n v vs (uio_of (v ∷ vs) offset resid) log
          ≡ go_on
              (add32 ptr s)
              (n - s)
              (uio_of (rest_of v s vs) ((offset + s) % 2 ^ 64) (sub32 resid s))
              (log ++ (record { buffer = v.base; ptr = ptr; size = s } ∷ []))
    unfolding move_some
    move_some-good ptr n offset resid s v vs log =
        let c =
          moved-good (v ∷ vs) offset resid (record { buffer = v.base; ptr = ptr; size = s }) in
        rw c refl

    move_bytes-move :
        (fuel ptr n offset resid s : ℕ) (v : Iovec) (vs : List Iovec) (log : List Move)
        → n ≢ 0
        → resid ≢ 0
        → size_of n v ≡ s
        → s ≢ 0
        → move_bytes (suc fuel) copy ptr n (uio_of (v ∷ vs) offset resid) log
          ≡ move_bytes fuel copy
              (add32 ptr s)
              (n - s)
              (uio_of (rest_of v s vs) ((offset + s) % 2 ^ 64) (sub32 resid s))
              (log ++ (record { buffer = v.base; ptr = ptr; size = s } ∷ []))
    unfolding move_bytes turn
    move_bytes-move fuel ptr n offset resid s v vs log nz rz size sz =
        let a : (n == 0 || resid == 0) ≡ false = ground (arith, nz, rz) in
        let b : (size_of n v == 0) ≡ false = ground (arith, size, sz) in
        let c = move_some-good ptr n offset resid s v vs log in rw (a, b, size, c, move_bytes) refl

    -- What a whole request of `n` bytes does.
    pub record Whole (iov : List Iovec) (offset resid ptr n : ℕ) (log : List Move)
        (answer : Option Answer) : Type 0 where
      pub rest : List Iovec
      pub moves : List Move
      pub returned :
          answer ≡ some (ok (0, uio_of rest ((offset + n) % 2 ^ 64) (resid - n), log ++ moves))
      pub bytes : all_bytes moves ≡ pairs iov ptr n
      pub behind : (k : ℕ) → place rest k ≡ place iov (n + k)

    nothing :
        (fuel ptr offset resid : ℕ) (iov : List Iovec) (log : List Move)
        → offset < 2 ^ 64
        → Whole iov offset resid ptr 0 log
            (move_bytes (suc fuel) copy ptr 0 (uio_of iov offset resid) log)
    unfolding listed
    nothing fuel ptr offset resid iov log o =
        let a : (offset + 0) % 2 ^ 64 ≡ offset = omega (arith, o) in
        let b : resid - 0 ≡ resid = omega arith in
        record {
          rest = iov;
          moves = [];
          returned =
              move_bytes-none fuel ptr offset resid iov log
              ∙ rw (a, b)
                  (ap (λ x. some (ok (0, uio_of iov offset resid, x))) (sym (append-nil log)));
          bytes = refl;
          behind = λ k. ap (place iov) (omega arith);
        }

    -- An empty buffer in front changes nothing.
    empty-Whole :
        (v : Iovec) (vs : List Iovec) (offset resid ptr n : ℕ) (log : List Move)
        (answer : Option Answer)
        → v.len ≡ 0
        → Whole vs offset resid ptr n log answer
        → Whole (v ∷ vs) offset resid ptr n log answer
    empty-Whole v vs offset resid ptr n log answer z w = record {
      rest = w.rest;
      moves = w.moves;
      returned = w.returned;
      bytes =
          w.bytes
          ∙ listed-same (λ k. (place vs k, add32 ptr k)) (λ k. (place (v ∷ vs) k, add32 ptr k)) 0 0
              n (λ i q. let e = place-empty v vs (0 + i) z in rw e refl);
      behind = λ k. w.behind k ∙ sym (place-empty v vs (n + k) z);
    }

    -- One move, and then the rest of the request.
    move-Whole :
        (v : Iovec) (vs : List Iovec) (offset resid ptr n s : ℕ) (log : List Move)
        (answer : Option Answer)
        → s ≤ v.len
        → s ≤ n
        → Whole
            (rest_of v s vs)
            ((offset + s) % 2 ^ 64)
            (resid - s)
            (add32 ptr s)
            (n - s)
            (log ++ (record { buffer = v.base; ptr = ptr; size = s } ∷ []))
            answer
        → Whole (v ∷ vs) offset resid ptr n log answer
    move-Whole v vs offset resid ptr n s log answer l m w =
        let first : Move = record { buffer = v.base; ptr = ptr; size = s } in
        let a : ((offset + s) % 2 ^ 64 + (n - s)) % 2 ^ 64 ≡ (offset + n) % 2 ^ 64 =
          omega (arith, m) in
        let b : resid - s - (n - s) ≡ resid - n = omega (arith, m) in
        record {
          rest = w.rest;
          moves = first ∷ w.moves;
          returned =
              w.returned
              ∙ rw (a, b)
                  (ap (λ x. some (ok (0, uio_of w.rest ((offset + n) % 2 ^ 64) (resid - n), x)))
                    (append_assoc log (first ∷ []) w.moves));
          bytes = ap (λ x. bytes_of first ++ x) w.bytes ∙ sym (pairs-split v vs ptr s n l m);
          behind = λ k.
              w.behind k
              ∙ (place-rest v vs s (n - s + k) l ∙ ap (place (v ∷ vs)) (omega (arith, m)));
        }

    dropped :
        (fuel ptr n offset resid : ℕ) (v : Iovec) (vs : List Iovec) (log : List Move)
        → n ≢ 0
        → resid ≢ 0
        → v.len ≡ 0
        → n ≤ total vs
        → move_bytes (suc fuel) copy ptr n (uio_of (v ∷ vs) offset resid) log
          ≡ move_bytes fuel copy ptr n (uio_of vs offset resid) log
    dropped fuel ptr n offset resid v [] log nz rz z l = absurd (nz (omega (arith, l)))
    dropped fuel ptr n offset resid v (w ∷ ws) log nz rz z l =
        move_bytes-drop fuel ptr n offset resid v w ws log nz rz z

    -- `n` bytes from an empty buffer and those behind it
    behind_empty :
        (fuel ptr n offset resid : ℕ) (v : Iovec) (vs : List Iovec) (log : List Move)
        → v.len ≡ 0
        → n ≤ total vs
        → n ≤ resid
        → offset < 2 ^ 64
        → Whole vs offset resid ptr n log (move_bytes fuel copy ptr n (uio_of vs offset resid) log)
        → Whole
            (v ∷ vs)
            offset
            resid
            ptr
            n
            log
            (move_bytes (suc fuel) copy ptr n (uio_of (v ∷ vs) offset resid) log)
    behind_empty fuel ptr n offset resid v vs log z l r o w = elim (Bool-cases (n == 0)) [
      | inl y ↦
          subst
            (λ x.
              Whole (v ∷ vs) offset resid ptr x log
                (move_bytes (suc fuel) copy ptr x (uio_of (v ∷ vs) offset resid) log))
            (ground (arith, y)) (nothing fuel ptr offset resid (v ∷ vs) log o)
      | inr y ↦
          let nz : n ≢ 0 = ground (arith, y) in
          subst (Whole (v ∷ vs) offset resid ptr n log)
            (sym (dropped fuel ptr n offset resid v vs log nz (λ q. nz (omega (arith, q, r))) z l))
            (empty-Whole v vs offset resid ptr n log _ z w)
    ]

    -- A move of `s` bytes of the first buffer, whatever comes of the rest.
    moved-Whole :
        (fuel ptr n offset resid s : ℕ) (v : Iovec) (vs : List Iovec) (log : List Move)
        → n ≢ 0
        → n ≤ resid
        → resid < 2 ^ 32
        → size_of n v ≡ s
        → s ≢ 0
        → s ≤ v.len
        → s ≤ n
        → ((log' : List Move)
            → Whole
                (rest_of v s vs)
                ((offset + s) % 2 ^ 64)
                (resid - s)
                (add32 ptr s)
                (n - s)
                log'
                (move_bytes fuel copy
                  (add32 ptr s)
                  (n - s)
                  (uio_of (rest_of v s vs) ((offset + s) % 2 ^ 64) (resid - s))
                  log'))
        → Whole
            (v ∷ vs)
            offset
            resid
            ptr
            n
            log
            (move_bytes (suc fuel) copy ptr n (uio_of (v ∷ vs) offset resid) log)
    moved-Whole fuel ptr n offset resid s v vs log nz r small size sz l m w =
        let first : Move = record { buffer = v.base; ptr = ptr; size = s } in
        let exact : sub32 resid s ≡ resid - s = omega (arith, m, r, small) in
        let step =
          move_bytes-move fuel ptr n offset resid s v vs log nz (λ q. nz (omega (arith, q, r))) size
            sz in
        let step' =
          step
          ∙ ap
              (λ x.
                move_bytes fuel copy (add32 ptr s) (n - s)
                  (uio_of (rest_of v s vs) ((offset + s) % 2 ^ 64) x) (log ++ (first ∷ [])))
              exact in
        subst (Whole (v ∷ vs) offset resid ptr n log) (sym step')
          (move-Whole v vs offset resid ptr n s log _ l m (w (log ++ (first ∷ []))))

    move_bytes-Whole :
        (fuel ptr n offset resid : ℕ) (iov : List Iovec) (log : List Move)
        → turns iov ≤ fuel
        → n ≤ total iov
        → n ≤ resid
        → resid < 2 ^ 32
        → offset < 2 ^ 64
        → Whole iov offset resid ptr n log
            (move_bytes fuel copy ptr n (uio_of iov offset resid) log)
    move_bytes-Whole zero ptr n offset resid [] log f l r small o = absurd (omega (arith, f))
    move_bytes-Whole (suc fuel) ptr n offset resid [] log f l r small o =
        subst
          (λ x.
            Whole [] offset resid ptr x log
              (move_bytes (suc fuel) copy ptr x (uio_of [] offset resid) log))
          (omega (arith, l)) (nothing fuel ptr offset resid [] log o)
    move_bytes-Whole zero ptr n offset resid (v ∷ vs) log f l r small o = absurd (omega (arith, f))
    move_bytes-Whole (suc zero) ptr n offset resid (v ∷ vs) log f l r small o =
        absurd (omega (arith, f))
    move_bytes-Whole (suc (suc fuel)) ptr n offset resid (v ∷ vs) log f l r small o =
        elim (Bool-cases (v.len == 0)) [
          | inl y ↦
              let z : v.len ≡ 0 = ground (arith, y) in
              let m : n ≤ total vs = omega (arith, l, z) in
              behind_empty (suc fuel) ptr n offset resid v vs log z m r o (
                move_bytes-Whole (suc fuel) ptr n offset resid vs log (omega (arith, f)) m r small
                  o)
          | inr y ↦ elim (Bool-cases (n == 0)) [
            | inl q ↦
                subst
                  (λ x.
                    Whole (v ∷ vs) offset resid ptr x log
                      (move_bytes (suc (suc fuel)) copy ptr x (uio_of (v ∷ vs) offset resid) log))
                  (ground (arith, q)) (nothing (suc fuel) ptr offset resid (v ∷ vs) log o)
            | inr q ↦
                let nz : n ≢ 0 = ground (arith, q) in
                elim (Bool-cases (ltb n v.len)) [
                  | inl p ↦
                      moved-Whole (suc fuel) ptr n offset resid n v vs log nz r small (rw p refl) nz
                        (ground (arith, p)) (omega arith)
                        (λ log'.
                          subst
                            (λ x.
                              Whole (rest_of v n vs) ((offset + n) % 2 ^ 64) (resid - n)
                                (add32 ptr n) x log'
                                (move_bytes (suc fuel) copy (add32 ptr n) x
                                  (uio_of (rest_of v n vs) ((offset + n) % 2 ^ 64) (resid - n))
                                  log'))
                            (omega arith)
                            (nothing fuel (add32 ptr n) ((offset + n) % 2 ^ 64) (resid - n)
                              (rest_of v n vs) log' (omega arith)))
                  | inr p ↦
                      let m : v.len ≤ n = ground (arith, p) in
                      let left : n - v.len ≤ total vs = omega (arith, l) in
                      let allowed : n - v.len ≤ resid - v.len = omega (arith, r) in
                      moved-Whole (suc fuel) ptr n offset resid v.len v vs log nz r small
                        (rw p refl) (ground (arith, y)) (omega arith) m
                        (λ log'.
                          behind_empty fuel (add32 ptr v.len) (n - v.len)
                            ((offset + v.len) % 2 ^ 64) (resid - v.len)
                            (record { base = add32 v.base v.len; len = v.len - v.len }) vs log'
                            (omega arith) left allowed (omega arith)
                            (move_bytes-Whole fuel (add32 ptr v.len) (n - v.len)
                              ((offset + v.len) % 2 ^ 64) (resid - v.len) vs log' (omega (arith, f))
                              left allowed (omega (arith, small)) (omega arith)))
                ]
          ]
        ]

    -- Where uio_space fits and the copies succeed, uiomove of `n` bytes that the buffers hold and uio_resid allows ends within two turns
    -- for each buffer and one more, and returns 0. Its moves join, byte by byte and in order, the first `n`
    -- bytes of the buffers to those from the pointer on; uio_resid is then less by `n`, uio_offset more by
    -- `n`, and the buffers are those that are left after `n` bytes.
    pub uiomove-Whole :
        (fuel ptr n offset resid : ℕ) (iov : List Iovec) (log : List Move)
        → turns iov ≤ fuel
        → n ≤ total iov
        → n ≤ resid
        → resid < 2 ^ 32
        → offset < 2 ^ 64
        → Whole iov offset resid ptr n log
            (uiomove true fuel copy ptr n (uio_of iov offset resid) log)
    unfolding uiomove
    uiomove-Whole fuel ptr n offset resid iov log f l r small o =
        move_bytes-Whole fuel ptr n offset resid iov log f l r small o
