-- ===== src/Prelude/Counts.antt =====
-- Lists of numbers as multisets: how often a number occurs, and sums over the numbers below n.
use Prim.Native.Nat.{ℕ, zero, suc, ◌+◌, ◌≤◌, ◌<◌}
use mathlib.Core.Path.{◌≡◌, refl, subst}
use mathlib.Core.List.{List, [], ◌∷◌, ◌++◌}
use native.Mathlib.Decide.{dec_lt}
use native.Mathlib.Omega.{arith}
use mathlib.Core.Logic.{inl, inr}
use distcompile.Prelude.Tests.{Bool-cases, ==_iff, ltb, ◌==◌, if◌then◌else◌}
use distcompile.Prelude.Lists.{length, All}

-- How often `a` occurs in a list.
abbrev pub count : ℕ → List ℕ → ℕ
count n [] = 0
count n (m ∷ l) = (if m == n then 1 else 0) + count n l

pub sum_below : ℕ → (ℕ → ℕ) → ℕ
sum_below zero f = 0
sum_below (suc n) f = f n + sum_below n f

pub count-append : (n : ℕ) (l k : List ℕ) → count n (l ++ k) ≡ count n l + count n k
count-append n [] k = omega arith
count-append n (m ∷ l) k = omega (arith, count-append n l k)

sum_below-zero : (n : ℕ) → sum_below n (λ a. count a []) ≡ 0
unfolding sum_below
sum_below-zero zero = refl
sum_below-zero (suc n) = omega (arith, sum_below-zero n)

sum_below-cons :
    (n x : ℕ) (xs : List ℕ)
    → sum_below n (λ a. count a (x ∷ xs))
      ≡ (if ltb x n then 1 else 0) + sum_below n (λ a. count a xs)
unfolding sum_below
sum_below-cons zero x xs = ground arith
sum_below-cons (suc n) x xs = ground (arith, sum_below-cons n x xs)

-- A list of numbers below n is as long as its counts add up to.
pub length-sum_below :
    (n : ℕ) (xs : List ℕ)
    → ((a : ℕ) → n ≤ a → count a xs ≡ 0)
    → length xs ≡ sum_below n (λ a. count a xs)
length-sum_below n [] h = omega (arith, sum_below-zero n)
length-sum_below n (x ∷ xs) h =
    ground
      (arith, sum_below-cons n x xs, h x, length-sum_below n xs (λ a le. omega (arith, h a le)))

pub sum_below-le : (n : ℕ) (f : ℕ → ℕ) → ((a : ℕ) → f a ≤ 1) → sum_below n f ≤ n
unfolding sum_below
sum_below-le zero f h = omega arith
sum_below-le (suc n) f h = omega (arith, h n, sum_below-le n f h)

-- Pigeonhole: when no value is above 1 and the sum reaches n, every value is 1.
pub sum_below-full :
    (n : ℕ) (f : ℕ → ℕ) → ((a : ℕ) → f a ≤ 1) → sum_below n f ≡ n → (a : ℕ) → a < n → f a ≡ 1
unfolding sum_below
sum_below-full zero f h e a lt = elim lt [ ]
sum_below-full (suc n) f h e a lt = elim (dec_lt a n) [
  | yes below ↦ sum_below-full n f h (omega (arith, h n, sum_below-le n f h)) a below
  | no top ↦ let at_n : a ≡ n = omega arith in rw at_n (omega (arith, h n, sum_below-le n f h))
]

pub sum_below-ones : (n : ℕ) (f : ℕ → ℕ) → ((a : ℕ) → a < n → f a ≡ 1) → sum_below n f ≡ n
unfolding sum_below
sum_below-ones zero f h = refl
sum_below-ones (suc n) f h = omega (arith, h n, sum_below-ones n f (λ a lt. h a (omega arith)))

pub All-count {ℓ} : (P : ℕ → Type ℓ) (a : ℕ) (xs : List ℕ) → All P xs → 0 < count a xs → P a
All-count P a [] h m = absurd (omega arith)
All-count P a (x ∷ xs) h m = elim (Bool-cases (x == a)) [
  | inl here ↦ subst P ((==_iff x a).0 here) h.0
  | inr other ↦ All-count P a xs h.1 (ground arith)
]
