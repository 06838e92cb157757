-- ===== src/Array/Grow.antt =====
-- The loop of array_preallocate that looks for the new capacity.
use os22_crisologo_minichell.Base.{
  ℕ, zero, suc, ◌*◌, ◌<◌, ◌≤◌, ◌≡◌, ◌^◌, refl, subst, ◌⊎◌, inl, inr, true, false, some, arith, ltb,
  ◌==◌, if◌then◌else◌, mul32, Bool-cases,
}
use os22_crisologo_minichell.Array.{grow, Option}

-- `m` doubled `n` times
unfoldable pub doubled : ℕ → ℕ → ℕ
doubled zero m = m
doubled (suc n) m = doubled n (m * 2)

grow_from :
    (n num m : ℕ)
    → num ≤ 2 ^ 31
    → 0 < m
    → num ≤ doubled n m
    → (m' : ℕ) × (grow (suc n) num m ≡ some m') × (num ≤ m') × ((m' ≡ m) ⊎ (m' < num * 2))
unfolding doubled grow
grow_from zero num m l p enough =
    let y : ltb m num ≡ false = ground (arith, enough) in (m, rw y refl, enough, inl refl)
grow_from (suc n) num m l p enough = elim (Bool-cases (ltb m num)) [
  | inr y ↦ (m, rw y refl, ground (arith, y), inl refl)
  | inl y ↦
      let (m', e, b, c) = grow_from n num (m * 2) l (omega (arith, p)) enough in
      (m', rw y (next y e), b, inr (bounded m' c (ground (arith, y))))
]
  where
    next :
        {r : Option ℕ}
        → ltb m num ≡ true
        → grow (suc n) num (m * 2) ≡ r
        → grow (suc n) num (if m == 0 then 4 else mul32 m 2) ≡ r
    next {r} y e = subst (λ x. grow (suc n) num x ≡ r) (ground (arith, y, l, p)) e

    bounded : (m' : ℕ) → (m' ≡ m * 2) ⊎ (m' < num * 2) → m < num → m' < num * 2
    bounded m' (inl e) q = omega (arith, e, q)
    bounded m' (inr e) q = e

at_most : {a b c : ℕ} → a ≤ b → b ≤ c → a ≤ c
at_most p q = omega (arith, p, q)

doubled-at_least : (m : ℕ) → 0 < m → 2 ^ 31 ≤ doubled 31 m
unfolding doubled
doubled-at_least m p = omega (arith, p)

doubled-from_4 : 2 ^ 31 ≤ doubled 30 4
unfolding doubled
doubled-from_4 = omega arith

-- the first turn of an array without a block
first_turn :
    (n num max : ℕ) {m : ℕ}
    → ltb max num ≡ true
    → (max == 0) ≡ true
    → grow n num 4 ≡ some m
    → grow (suc n) num max ≡ some m
unfolding grow
first_turn n num max z y e = rw z (rw y e)

no_turn : (n num max : ℕ) → ltb max num ≡ false → grow (suc n) num max ≡ some max
unfolding grow
no_turn n num max z = rw z refl

-- The loop ends within 32 turns if at most 2 ^ 31 pointers are asked for, at a capacity that is large
-- enough, and that is less than twice the number asked for, or 4, if it is not the old one.
pub grow_lem :
    (num max : ℕ)
    → num ≤ 2 ^ 31
    → (m : ℕ) × (grow 32 num max ≡ some m) × (num ≤ m) × ((m ≡ max) ⊎ ((m ≡ 4) ⊎ (m < num * 2)))
grow_lem num max l = elim (Bool-cases (max == 0)) [
  | inr y ↦
      let (m, e, b, c) =
        grow_from 31 num max l (ground (arith, y))
          (at_most l (doubled-at_least max (ground (arith, y)))) in
      (m, e, b, elim c [ inl q ↦ inl q | inr q ↦ inr (inr q) ])
  | inl y ↦ elim (Bool-cases (ltb max num)) [
    | inr z ↦ (max, no_turn 31 num max z, ground (arith, z), inl refl)
    | inl z ↦
        let (m, e, b, c) = grow_from 30 num 4 l (omega arith) (at_most l doubled-from_4) in
        (m, first_turn 31 num max z y e, b, elim c [ inl q ↦ inr (inl q) | inr q ↦ inr (inr q) ])
  ]
]
