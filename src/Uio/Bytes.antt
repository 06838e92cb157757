-- ===== src/Uio/Bytes.antt =====
-- The moves of uiomove byte by byte.
use os22_crisologo_minichell.Base.{
  ℕ, zero, suc, ◌+◌, ◌-◌, ◌<◌, ◌≤◌, ◌≡◌, refl, sym, ap, ◌∙◌, inl, inr, true, false, List, [], ◌∷◌,
  ◌++◌, arith, ltb, if◌then◌else◌, add32, Bool-cases,
}
use mathlib.Core.List.{append_assoc}
use os22_crisologo_minichell.Uio.{Iovec, Move}

-- The address of byte `k` of the buffers.
abbrev pub place : List Iovec → ℕ → ℕ
place [] k = 0
place (v ∷ vs) k = if ltb k v.len then add32 v.base k else place vs (k - v.len)

abbrev pub total : List Iovec → ℕ
total [] = 0
total (v ∷ vs) = v.len + total vs

-- the first `n` values of a function, from `k` on
unfoldable pub listed : {A : Type 0} → (ℕ → A) → (k n : ℕ) → List A
listed f k zero = []
listed f k (suc n) = f k ∷ listed f (k + 1) n

-- the pairs of addresses that a move joins, byte by byte
abbrev pub bytes_of : Move → List (ℕ × ℕ)
bytes_of m = listed (λ k. (add32 m.buffer k, add32 m.ptr k)) 0 m.size

abbrev pub all_bytes : List Move → List (ℕ × ℕ)
all_bytes [] = []
all_bytes (m ∷ ms) = bytes_of m ++ all_bytes ms

pub all_bytes-append : (ms ms' : List Move) → all_bytes (ms ++ ms') ≡ all_bytes ms ++ all_bytes ms'
all_bytes-append [] ms' = refl
all_bytes-append (m ∷ ms) ms' =
    ap (λ l. bytes_of m ++ l) (all_bytes-append ms ms')
    ∙ sym (append_assoc (bytes_of m) (all_bytes ms) (all_bytes ms'))

shift : {A : Type 0} (f : ℕ → A) (a b : ℕ) → a ≡ b → f a ≡ f b
shift f a b e = ap f e

-- the same values from elsewhere
pub listed-same :
    {A : Type 0} (f g : ℕ → A) (j k n : ℕ)
    → ((i : ℕ) → i < n → f (j + i) ≡ g (k + i))
    → listed f j n ≡ listed g k n
unfolding listed
listed-same f g j k zero same = refl
listed-same f g j k (suc n) same =
    let tail = listed-same f g (j + 1) (k + 1) n (λ i l.
      shift f (j + 1 + i) (j + suc i) (omega arith)
      ∙ (same (suc i) (omega (arith, l)) ∙ shift g (k + suc i) (k + 1 + i) (omega arith))) in
    let head : f j ≡ g k =
      shift f j (j + 0) (omega arith) ∙ (same 0 (omega arith) ∙ shift g (k + 0) k (omega arith)) in
    rw (head, tail) refl

listed-append :
    {A : Type 0} (f : ℕ → A) (k a b : ℕ) → listed f k (a + b) ≡ listed f k a ++ listed f (k + a) b
unfolding listed
listed-append f k zero b =
    let e : k ≡ k + 0 = omega arith in
    let z : 0 + b ≡ b = omega arith in rw z (ap (λ x. listed f x b) e)
listed-append f k (suc a) b =
    let s : suc a + b ≡ suc (a + b) = omega arith in
    let e : k + 1 + a ≡ k + suc a = omega arith in
    rw s (
      ap (λ l. f k ∷ l)
        (listed-append f (k + 1) a b ∙ ap (λ x. listed f (k + 1) a ++ listed f x b) e))

-- What the moves of `n` bytes from `ptr` on should be, by the buffers `iov`.
abbrev pub pairs : List Iovec → (ptr n : ℕ) → List (ℕ × ℕ)
pairs iov ptr n = listed (λ k. (place iov k, add32 ptr k)) 0 n

-- The buffers after `s` bytes of the first have been moved.
abbrev pub rest_of : Iovec → ℕ → List Iovec → List Iovec
rest_of v s vs = record { base = add32 v.base s; len = v.len - s } ∷ vs

pub place-rest :
    (v : Iovec) (vs : List Iovec) (s k : ℕ)
    → s ≤ v.len
    → place (rest_of v s vs) k ≡ place (v ∷ vs) (s + k)
place-rest v vs s k l = elim (Bool-cases (ltb (s + k) v.len)) [
  | inl y ↦ let z : ltb k (v.len - s) ≡ true = ground (arith, y, l) in rw (y, z) (omega arith)
  | inr y ↦
      let z : ltb k (v.len - s) ≡ false = ground (arith, y, l) in
      rw (y, z) (ap (place vs) (omega (arith, l)))
]

pub place-empty : (v : Iovec) (vs : List Iovec) (k : ℕ) → v.len ≡ 0 → place (v ∷ vs) k ≡ place vs k
place-empty v vs k z =
    let y : ltb k v.len ≡ false = ground (arith, z) in rw y (ap (place vs) (omega (arith, z)))

-- the bytes of a move of `s` bytes, and then those of the rest
pub pairs-split :
    (v : Iovec) (vs : List Iovec) (ptr s n : ℕ)
    → s ≤ v.len
    → s ≤ n
    → pairs (v ∷ vs) ptr n
      ≡ bytes_of (record { buffer = v.base; ptr = ptr; size = s })
        ++ pairs (rest_of v s vs) (add32 ptr s) (n - s)
pairs-split v vs ptr s n l m =
    let f : ℕ → ℕ × ℕ = λ k. (place (v ∷ vs) k, add32 ptr k) in
    let g : ℕ → ℕ × ℕ = λ k. (add32 v.base k, add32 ptr k) in
    let h : ℕ → ℕ × ℕ = λ k. (place (rest_of v s vs) k, add32 (add32 ptr s) k) in
    let e : n ≡ s + (n - s) = omega (arith, m) in
    ap (λ x. listed f 0 x) e
    ∙ (listed-append f 0 s (n - s)
        ∙ append-both (listed-same f g 0 0 s (λ i q. first i q))
            (listed-same f h (0 + s) 0 (n - s) (λ i q. second i)))
  where
    append-both : {xs xs' ys ys' : List (ℕ × ℕ)} → xs ≡ xs' → ys ≡ ys' → xs ++ ys ≡ xs' ++ ys'
    append-both p q = rw (p, q) refl

    first :
        (i : ℕ)
        → i < s
        → ◌≡◌ {A = ℕ × ℕ}
            (place (v ∷ vs) (0 + i), add32 ptr (0 + i))
            (add32 v.base (0 + i), add32 ptr (0 + i))
    first i q = let y : ltb (0 + i) v.len ≡ true = ground (arith, q, l) in rw y refl

    second :
        (i : ℕ)
        → ◌≡◌ {A = ℕ × ℕ}
            (place (v ∷ vs) (0 + s + i), add32 ptr (0 + s + i))
            (place (rest_of v s vs) (0 + i), add32 (add32 ptr s) (0 + i))
    second i =
        let p : place (v ∷ vs) (0 + s + i) ≡ place (rest_of v s vs) (0 + i) =
          ap (place (v ∷ vs)) (omega arith) ∙ sym (place-rest v vs s (0 + i) l) in
        let q : add32 ptr (0 + s + i) ≡ add32 (add32 ptr s) (0 + i) = omega arith in rw (p, q) refl
