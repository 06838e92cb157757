-- ===== src/Base/Find.antt =====
-- Searching an array from its start: the loop that the kernel writes for each of its tables.
use Prim.Native.Nat.{ℕ, zero, suc, ◌+◌, ◌<◌}
use mathlib.Core.Path.{◌≡◌, refl, ap, subst, ◌∙◌}
use mathlib.Core.Logic.{inl, inr}
use mathlib.Core.Bool.{Bool, true, false}
use mathlib.Core.List.{List, [], ◌∷◌}
use mathlib.Core.Option.{Option, none, some}
use native.Mathlib.Omega.{arith}
use os22_crisologo_minichell.Base.Tests.{if◌then◌else◌, Bool-cases}
use os22_crisologo_minichell.Base.Lists.{get_elem?}

-- `for (i...) if (test(a[i])) return i;` from index `i` on; `none` when the loop runs out.
unfoldable pub find_from {ℓ} : {A : Type ℓ} → (A → Bool) → List A → ℕ → Option ℕ
find_from test [] i = none
find_from test (x ∷ xs) i = if test x then some i else find_from test xs (i + 1)

-- `j` is the first index whose element passes the test.
pub record IsFirst {ℓ} {A : Type ℓ} (test : A → Bool) (xs : List A) (j : ℕ) : Type ℓ where
  pub elem : A
  pub at : get_elem? xs j ≡ some elem
  pub holds : test elem ≡ true
  pub before : (m : ℕ) (b : A) → m < j → get_elem? xs m ≡ some b → test b ≡ false

-- No element passes the test.
abbrev pub NoneHolds {ℓ} : {A : Type ℓ} → (A → Bool) → List A → Type ℓ
NoneHolds {A} test xs = (m : ℕ) (b : A) → get_elem? xs m ≡ some b → test b ≡ false

module _ {ℓ} {A : Type ℓ} (test : A → Bool) where
  shift :
      (x : A) (xs : List A) {j : ℕ}
      → test x ≡ false
      → IsFirst test xs j
      → IsFirst test (x ∷ xs) (suc j)
  shift x xs {j} e f = record { elem = f.elem; at = f.at; holds = f.holds; before = earlier }
    where
      earlier : (m : ℕ) (b : A) → m < suc j → get_elem? (x ∷ xs) m ≡ some b → test b ≡ false
      earlier zero b h g = ground arith
      earlier (suc m) b h g = f.before m b (omega arith) g

  find_from-IsFirst :
      (xs : List A) (i : ℕ) {j : ℕ}
      → find_from test xs i ≡ some j
      → (k : ℕ) × (j ≡ i + k) × IsFirst test xs k
  unfolding find_from
  find_from-IsFirst [] i h = cc
  find_from-IsFirst (x ∷ xs) i {j} h = elim (Bool-cases (test x)) [
    | inl e ↦ (
      0,
      ground arith,
      record { elem = x; at = refl; holds = e; before = λ m b l g. absurd (omega arith) },
    )
    | inr e ↦
        let (k, q, f) = find_from-IsFirst xs (i + 1) (rw e at h) in
        (suc k, omega arith, shift x xs e f)
  ]

  pub find-IsFirst : (xs : List A) {j : ℕ} → find_from test xs 0 ≡ some j → IsFirst test xs j
  find-IsFirst xs h =
      let (k, q, f) = find_from-IsFirst xs 0 h in subst (IsFirst test xs) (omega arith) f

  find_from-NoneHolds : (xs : List A) (i : ℕ) → find_from test xs i ≡ none → NoneHolds test xs
  unfolding find_from
  find_from-NoneHolds [] i h m b g = cc
  find_from-NoneHolds (x ∷ xs) i h zero b g = ground arith
  find_from-NoneHolds (x ∷ xs) i h (suc m) b g = find_from-NoneHolds xs (i + 1) (ground arith) m b g

  pub find-NoneHolds : (xs : List A) → find_from test xs 0 ≡ none → NoneHolds test xs
  find-NoneHolds xs h = find_from-NoneHolds xs 0 h

  pub NoneHolds-find : (xs : List A) (i : ℕ) → NoneHolds test xs → find_from test xs i ≡ none
  unfolding find_from
  NoneHolds-find [] i h = refl
  NoneHolds-find (x ∷ xs) i h = rw (h 0 x refl) (NoneHolds-find xs (i + 1) (λ m b g. h (suc m) b g))

  find_from_at : (xs : List A) (i j : ℕ) → IsFirst test xs j → find_from test xs i ≡ some (i + j)
  unfolding find_from
  find_from_at [] i j f = cc (f.at)
  find_from_at (x ∷ xs) i zero f = ground (arith, f.at, f.holds)
  find_from_at (x ∷ xs) i (suc j) f = rw (f.before 0 x (omega arith) refl) (
      find_from_at xs (i + 1) j (record {
        elem = f.elem;
        at = f.at;
        holds = f.holds;
        before = λ m b l g. f.before (suc m) b (omega arith) g;
      })
      ∙ ap some (omega arith))

  pub IsFirst-find : (xs : List A) {j : ℕ} → IsFirst test xs j → find_from test xs 0 ≡ some j
  IsFirst-find xs {j} f = find_from_at xs 0 j f ∙ ap some (omega arith)

  find_from-some :
      (xs : List A) (i j : ℕ) {a : A}
      → get_elem? xs j ≡ some a
      → test a ≡ true
      → (k : ℕ) × (find_from test xs i ≡ some (i + k)) × (k < suc j)
  unfolding find_from
  find_from-some [] i j g t = cc
  find_from-some (x ∷ xs) i zero g t = (0, ground arith, omega arith)
  find_from-some (x ∷ xs) i (suc j) g t =
      let (k, q, l) = find_from-some xs (i + 1) j g t in
      elim (Bool-cases (test x)) [
        | inl e ↦ (0, rw e (ap some (omega arith)), omega arith)
        | inr e ↦ (suc k, rw e (q ∙ ap some (omega arith)), omega arith)
      ]

  -- Where an element passes, the loop returns an index no later than its own.
  pub find_some :
      (xs : List A) (j : ℕ) {a : A}
      → get_elem? xs j ≡ some a
      → test a ≡ true
      → (k : ℕ) × (find_from test xs 0 ≡ some k) × (k < suc j)
  find_some xs j g t =
      let (k, e, l) = find_from-some xs 0 j g t in (k, e ∙ ap some (omega arith), l)
