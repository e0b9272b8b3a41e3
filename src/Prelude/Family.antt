-- ===== src/Prelude/Family.antt =====
-- Arrays as total functions of the index: one write, and sums of weights over the first `n` cells.
use Prim.Native.Nat.{ℕ, zero, suc, ◌+◌, ◌*◌, ◌≤◌, ◌<◌}
use mathlib.Core.Path.{◌≡◌, refl}
use mathlib.Core.Logic.{◌≢◌}
use native.Mathlib.Decide.{dec_lt}
use native.Mathlib.Omega.{arith}
use sub0pipeline.Prelude.Tests.{◌==◌, if◌then◌else◌}

abbrev pub update {ℓ} : {A : Type ℓ} → (ℕ → A) → ℕ → A → ℕ → A
update f i a j = if i == j then a else f j

-- The sum of `f 0 … f (n - 1)`.
pub total : ℕ → (ℕ → ℕ) → ℕ
total zero f = 0
total (suc n) f = total n f + f n

pub total_ext : (n : ℕ) (f g : ℕ → ℕ) → ((i : ℕ) → i < n → f i ≡ g i) → total n f ≡ total n g
unfolding total
total_ext zero f g h = refl
total_ext (suc n) f g h =
    omega (arith, total_ext n f g (λ i lt. h i (omega arith)), h n (omega arith))

-- Two families that agree but at `x` have sums that differ as they do there.
pub total_at :
    (n x : ℕ) (f g : ℕ → ℕ)
    → x < n
    → ((i : ℕ) → i < n → i ≢ x → f i ≡ g i)
    → total n f + g x ≡ total n g + f x
unfolding total
total_at zero x f g lt h = absurd (omega arith)
total_at (suc n) x f g lt h = elim (dec_lt x n) [
  | yes below ↦ omega (
    arith,
    total_at n x f g below (λ i l ne. h i (omega arith) ne),
    h n (omega arith) (λ e. absurd (omega arith)),
  )
  | no last ↦
      let e : x ≡ n = omega arith in
      rw e (omega (arith, total_ext n f g (λ i l. h i (omega arith) (λ e'. absurd (omega arith)))))
]

pub total-le : (n : ℕ) (f : ℕ → ℕ) → ((i : ℕ) → i < n → f i ≤ 1) → total n f ≤ n
unfolding total
total-le zero f h = omega arith
total-le (suc n) f h = omega (arith, total-le n f (λ i l. h i (omega arith)), h n (omega arith))

pub total_one : (n : ℕ) (f : ℕ → ℕ) → ((i : ℕ) → i < n → f i ≡ 1) → total n f ≡ n
unfolding total
total_one zero f h = refl
total_one (suc n) f h = omega (arith, total_one n f (λ i l. h i (omega arith)), h n (omega arith))

pub le-total : (n i : ℕ) (f : ℕ → ℕ) → i < n → f i ≤ total n f
unfolding total
le-total zero i f h = absurd (omega arith)
le-total (suc n) i f h = elim (dec_lt i n) [
  | yes below ↦ omega (arith, le-total n i f below)
  | no last ↦ let e : i ≡ n = omega arith in rw e (omega arith)
]

-- A sum that is not zero has a summand that is not zero.
pub total_pos : (n : ℕ) (f : ℕ → ℕ) → 0 < total n f → (i : ℕ) × (i < n) × (0 < f i)
unfolding total
total_pos zero f h = absurd (omega arith)
total_pos (suc n) f h = elim (dec_lt 0 (f n)) [
  | yes here ↦ (n, omega arith, here)
  | no none_here ↦ let (i, lt, pos) = total_pos n f (omega arith) in (i, omega arith, pos)
]

pub total-le-mul : (n m : ℕ) (f : ℕ → ℕ) → ((i : ℕ) → i < n → f i ≤ m) → total n f ≤ n * m
unfolding total
total-le-mul zero m f h = omega arith
total-le-mul (suc n) m f h =
    omega (arith, total-le-mul n m f (λ i l. h i (omega arith)), h n (omega arith))

pub total_zero : (f : ℕ → ℕ) → total 0 f ≡ 0
unfolding total
total_zero f = refl

pub total-suc : (k : ℕ) (f : ℕ → ℕ) → total (suc k) f ≡ total k f + f k
unfolding total
total-suc k f = refl

-- A sum of zeros and ones with a zero among them stays below `n`.
pub total-lt : (n x : ℕ) (f : ℕ → ℕ) → x < n → ((i : ℕ) → i < n → f i ≤ 1) → f x ≡ 0 → total n f < n
total-lt n x f lt small zero_at =
    let f' : ℕ → ℕ = λ i. if i == x then 1 else f i in
    let at = total_at n x f f' lt (λ i l ne. ground arith) in
    let most = total-le n f' (λ i l. ground (arith, small i l)) in ground (arith, at, most)

pub total_none : (n : ℕ) (f : ℕ → ℕ) → ((i : ℕ) → i < n → f i ≡ 0) → total n f ≡ 0
unfolding total
total_none zero f h = refl
total_none (suc n) f h = omega (arith, total_none n f (λ i l. h i (omega arith)), h n (omega arith))

pub total_mono : (n : ℕ) (f g : ℕ → ℕ) → ((i : ℕ) → i < n → f i ≤ g i) → total n f ≤ total n g
unfolding total
total_mono zero f g h = omega arith
total_mono (suc n) f g h =
    omega (arith, total_mono n f g (λ i l. h i (omega arith)), h n (omega arith))

-- Where no summand grows, a sum falls at least as far as any one of them.
pub total_drop :
    (n x : ℕ) (f g : ℕ → ℕ)
    → x < n
    → ((i : ℕ) → i < n → f i ≤ g i)
    → total n f + g x ≤ total n g + f x
total_drop n x f g lt h =
    let f' : ℕ → ℕ = λ i. if i == x then g x else f i in
    let at = total_at n x f f' lt (λ i l ne. ground arith) in
    let most = total_mono n f' g (λ i l. ground (arith, h i l)) in ground (arith, at, most)

-- A sum over the cells of an array, before and after one write.
pub total-update {ℓ} :
    {A : Type ℓ} (n i : ℕ) (w : ℕ → A → ℕ) (f : ℕ → A) (a : A)
    → i < n
    → total n (λ q. w q (update f i a q)) + w i (f i) ≡ total n (λ q. w q (f q)) + w i a
total-update n i w f a lt =
    let at =
      total_at n i (λ q. w q (update f i a q)) (λ q. w q (f q)) lt (λ q l ne. ground (arith, ne)) in
    let here : w i (update f i a i) ≡ w i a = ground arith in omega (arith, at, here)
