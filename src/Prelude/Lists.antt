-- ===== src/Prelude/Lists.antt =====
-- Lists measured and searched by native numbers.
use Prim.Native.Nat.{ℕ, suc, ◌+◌, ◌≤◌, ◌<◌}
use mathlib.Core.Path.{◌≡◌, refl}
use mathlib.Core.List.{List, [], ◌∷◌, ◌++◌}
use mathlib.Core.Logic.{◌⊎◌, inl, inr}
use mathlib.Core.Bool.{Bool, true, false, ◌&&◌}
use native.Mathlib.Omega.{arith}
use sub0pipeline.Prelude.Tests.{◌==◌, if◌then◌else◌}

module _ {ℓ} {A : Type ℓ} where
  abbrev pub length : List A → ℕ
  length [] = 0
  length (x ∷ xs) = suc (length xs)

  pub length-append : (xs ys : List A) → length (xs ++ ys) ≡ length xs + length ys
  length-append [] ys = omega arith
  length-append (x ∷ xs) ys = omega (arith, length-append xs ys)

-- How often a number stands in a list.
abbrev pub count : ℕ → List ℕ → ℕ
count a [] = 0
count a (x ∷ xs) = (if a == x then 1 else 0) + count a xs

pub count-append :
    (i : ℕ) (front back : List ℕ) → count i (front ++ back) ≡ count i front + count i back
count-append i [] back = omega arith
count-append i (first ∷ front) back = omega (arith, count-append i front back)

-- Every number in the list is below `n`.
abbrev pub AllBelow : ℕ → List ℕ → Type 0
AllBelow n [] = Unit {0}
AllBelow n (x ∷ xs) = (x < n) × AllBelow n xs

pub AllBelow-append :
    (n : ℕ) (xs ys : List ℕ) → AllBelow n xs → AllBelow n ys → AllBelow n (xs ++ ys)
AllBelow-append n [] ys hx hy = hy
AllBelow-append n (x ∷ xs) ys hx hy = (hx.0, AllBelow-append n xs ys hx.1 hy)

pub AllBelow-count : (n a : ℕ) (xs : List ℕ) → AllBelow n xs → 0 < count a xs → a < n
AllBelow-count n a [] h c = absurd (omega arith)
AllBelow-count n a (x ∷ xs) h c = ground (arith, AllBelow-count n a xs h.1)

unfoldable pub List-cases {ℓ} :
    {A : Type ℓ} (xs : List A) → (xs ≡ []) ⊎ ((x : A) × (rest : List A) × (xs ≡ x ∷ rest))
List-cases [] = inl refl
List-cases (x ∷ xs) = inr (x, xs, refl)

pub AllBelow-mono : (n m : ℕ) (xs : List ℕ) → n ≤ m → AllBelow n xs → AllBelow m xs
AllBelow-mono n m [] h b = tt
AllBelow-mono n m (x ∷ xs) h b = (omega arith, AllBelow-mono n m xs h b.1)

pub count-le-length : (a : ℕ) (xs : List ℕ) → count a xs ≤ length xs
count-le-length a [] = omega arith
count-le-length a (x ∷ xs) = ground (arith, count-le-length a xs)

-- Two strings of bytes are the same.
abbrev pub same_bytes : List ℕ → List ℕ → Bool
same_bytes [] [] = true
same_bytes (x ∷ xs) (y ∷ ys) = (x == y) && same_bytes xs ys
same_bytes _ _ = false

pub same_bytes_sound : (xs ys : List ℕ) → same_bytes xs ys ≡ true → xs ≡ ys
same_bytes_sound [] [] e = refl
same_bytes_sound [] (y ∷ ys) e = absurd (ground (arith, e))
same_bytes_sound (x ∷ xs) [] e = absurd (ground (arith, e))
same_bytes_sound (x ∷ xs) (y ∷ ys) e = ground (arith, e, same_bytes_sound xs ys (ground (arith, e)))

pub same_bytes_refl : (xs : List ℕ) → same_bytes xs xs ≡ true
same_bytes_refl [] = refl
same_bytes_refl (x ∷ xs) = ground (arith, same_bytes_refl xs)
