-- ===== src/Array/Remove.antt =====
-- Sequences without one of their elements.
use os22_crisologo_minichell.Base.{
  ℕ, zero, suc, ◌+◌, ◌-◌, ◌<◌, ◌≡◌, refl, ◌∙◌, some, List, [], ◌∷◌, ◌++◌, arith, ltb, ◌==◌,
  if◌then◌else◌, length, get_elem?,
}

-- the sequence without its element `i`
unfoldable pub remove_at : ℕ → List ℕ → List ℕ
remove_at i [] = []
remove_at zero (x ∷ xs) = xs
remove_at (suc i) (x ∷ xs) = x ∷ remove_at i xs

pub length-remove_at :
    (i : ℕ) (xs : List ℕ) → i < length xs → length (remove_at i xs) ≡ length xs - 1
unfolding remove_at
length-remove_at i [] l = absurd (omega (arith, l))
length-remove_at zero (x ∷ xs) l = omega arith
length-remove_at (suc i) (x ∷ xs) l =
    let h = length-remove_at i xs (omega (arith, l)) in omega (arith, h, l)

pub get_elem?-remove_at :
    (i j : ℕ) (xs : List ℕ)
    → get_elem? (remove_at i xs) j ≡ (if ltb j i then get_elem? xs j else get_elem? xs (suc j))
unfolding remove_at
get_elem?-remove_at i j [] = ground arith
get_elem?-remove_at zero j (x ∷ xs) = ground arith
get_elem?-remove_at (suc i) zero (x ∷ xs) = ground arith
get_elem?-remove_at (suc i) (suc j) (x ∷ xs) = get_elem?-remove_at i j xs ∙ ground arith

pub get_elem?-append :
    (xs : List ℕ) (x i : ℕ)
    → i < length xs + 1
    → get_elem? (xs ++ (x ∷ [])) i ≡ (if i == length xs then some x else get_elem? xs i)
get_elem?-append [] x zero l = refl
get_elem?-append [] x (suc i) l = absurd (omega (arith, l))
get_elem?-append (y ∷ xs) x zero l = ground arith
get_elem?-append (y ∷ xs) x (suc i) l = get_elem?-append xs x i (omega (arith, l)) ∙ ground arith
