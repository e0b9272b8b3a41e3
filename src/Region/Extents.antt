-- ===== src/Region/Extents.antt =====
-- The free list: sorted, coalesced, and every cell counted once, before and after a block is taken out
-- of it or put back.
use sub0pipeline.Prelude.{
  ℕ, ◌+◌, ◌-◌, ◌%◌, ◌≤◌, ◌<◌, ◌≡◌, refl, ◌⊎◌, inl, inr, ◌&&◌, some, List, [], ◌∷◌, arith, ltb, leb,
  ◌==◌, if◌then◌else◌, Option-cases, Bool-cases,
}
use sub0pipeline.Region.{Extent, alignment, take_fit}

-- One, if the cell `x` lies in the `size` cells from `offset` on.
abbrev pub covers : ℕ → ℕ → ℕ → ℕ
covers offset size x = if leb offset x && ltb x (offset + size) then 1 else 0

-- How many entries hold the cell `x`, and how many cells there are.
abbrev pub free_cover : List Extent → ℕ → ℕ
free_cover [] x = 0
free_cover (e ∷ es) x = covers e.offset e.size x + free_cover es x

abbrev pub free_total : List Extent → ℕ
free_total [] = 0
free_total (e ∷ es) = e.size + free_total es

-- The entries are not empty, in order, between `lo` and `hi`, and no two touch.
abbrev pub Spaced : ℕ → ℕ → List Extent → Type 0
Spaced lo hi [] = Unit {0}
Spaced lo hi (e ∷ es) =
    (lo ≤ e.offset) × (0 < e.size) × (e.offset + e.size ≤ hi) × Spaced (e.offset + e.size + 1) hi es

-- `e` touches no cell of an entry.
abbrev pub Clear : Extent → List Extent → Type 0
Clear e [] = Unit {0}
Clear e (f ∷ fs) = ((e.offset + e.size ≤ f.offset) ⊎ (f.offset + f.size ≤ e.offset)) × Clear e fs

abbrev pub Aligned : List Extent → Type 0
Aligned [] = Unit {0}
Aligned (e ∷ es) = (e.offset % alignment ≡ 0) × (e.size % alignment ≡ 0) × Aligned es

pub Spaced-mono : (lo lo' hi : ℕ) (es : List Extent) → lo' ≤ lo → Spaced lo hi es → Spaced lo' hi es
Spaced-mono lo lo' hi [] h s = tt
Spaced-mono lo lo' hi (e ∷ es) h s = (omega arith, s.1, s.2, s.3)

pub free_cover-below :
    (lo hi : ℕ) (es : List Extent) (x : ℕ) → Spaced lo hi es → x < lo → free_cover es x ≡ 0
free_cover-below lo hi [] x s h = refl
free_cover-below lo hi (e ∷ es) x s h =
    ground (arith, free_cover-below (e.offset + e.size + 1) hi es x s.3)

-- Cells that no entry holds make a clear extent.
pub Clear-cover :
    (lo hi : ℕ) (e : Extent) (es : List Extent)
    → Spaced lo hi es
    → 0 < e.size
    → ((x : ℕ) → covers e.offset e.size x ≡ 1 → free_cover es x ≡ 0)
    → Clear e es
Clear-cover lo hi e [] s h free = tt
Clear-cover lo hi e (f ∷ fs) s h free = (
  ground (arith, free e.offset, free f.offset),
  Clear-cover (f.offset + f.size + 1) hi e fs s.3 h (λ x c. omega (arith, free x c)),
)

-- What is left of the first entry that is large enough.
abbrev pub remainder : ℕ → Extent → List Extent → List Extent
remainder size e es =
    if e.size - size == 0
    then es
    else record { offset = e.offset + size; size = e.size - size } ∷ es

pub take_fit-cases :
    (size : ℕ) (e : Extent) (es : List Extent) (offset : ℕ) (es' : List Extent)
    → take_fit size (e ∷ es) ≡ some (offset, es')
    → ((e.size < size)
        × (rest : List Extent) × (take_fit size es ≡ some (offset, rest))
        × (es' ≡ e ∷ rest))
      ⊎ ((size ≤ e.size) × (offset ≡ e.offset) × (es' ≡ remainder size e es))
unfolding take_fit
take_fit-cases size e es offset es' h = elim (Option-cases (take_fit size es)) [
  | inl stop ↦ inr (ground (arith, h, stop), ground (arith, h, stop), ground (arith, h, stop))
  | inr ((o, rest), found) ↦ elim (Bool-cases (ltb e.size size)) [
    | inl small ↦ inl (
      ground (arith, small),
      rest,
      ground (arith, h, found, small),
      ground (arith, h, found, small),
    )
    | inr fits ↦ inr (ground (arith, fits), ground (arith, h, fits), ground (arith, h, fits))
  ]
]

-- A block that is taken leaves every other cell free, and none of its own.
pub take_fit-cover :
    (size : ℕ) (es : List Extent) (offset : ℕ) (es' : List Extent) (x : ℕ)
    → take_fit size es ≡ some (offset, es')
    → free_cover es x ≡ free_cover es' x + covers offset size x
take_fit-cover size [] offset es' x h = unfold take_fit in ground (arith, h)
take_fit-cover size (e ∷ es) offset es' x h = elim (take_fit-cases size e es offset es' h) [
  | inl (small, rest, found, eq) ↦ ground (arith, eq, take_fit-cover size es offset rest x found)
  | inr (fits, at, eq) ↦ ground (arith, fits, at, eq)
]

pub take_fit-total :
    (size : ℕ) (es : List Extent) (offset : ℕ) (es' : List Extent)
    → take_fit size es ≡ some (offset, es')
    → free_total es ≡ free_total es' + size
take_fit-total size [] offset es' h = unfold take_fit in ground (arith, h)
take_fit-total size (e ∷ es) offset es' h = elim (take_fit-cases size e es offset es' h) [
  | inl (small, rest, found, eq) ↦ ground (arith, eq, take_fit-total size es offset rest found)
  | inr (fits, at, eq) ↦ ground (arith, fits, at, eq)
]

pub take_fit-Spaced :
    (size lo hi : ℕ) (es : List Extent) (offset : ℕ) (es' : List Extent)
    → 0 < size
    → take_fit size es ≡ some (offset, es')
    → Spaced lo hi es
    → Spaced lo hi es' × (lo ≤ offset) × (offset + size ≤ hi)
take_fit-Spaced size lo hi [] offset es' pos h s = unfold take_fit in ground (arith, h)
take_fit-Spaced size lo hi (e ∷ es) offset es' pos h s =
    elim (take_fit-cases size e es offset es' h) [
      | inl (small, rest, found, eq) ↦
          let below =
            take_fit-Spaced size (e.offset + e.size + 1) hi es offset rest pos found s.3 in
          (rw eq (s.0, s.1, s.2, below.0), omega arith, omega arith)
      | inr (fits, at, eq) ↦ elim (Bool-cases (e.size - size == 0)) [
        | inl none_left ↦ (
          rw (eq, none_left) (Spaced-mono (e.offset + e.size + 1) lo hi es (omega arith) s.3),
          omega arith,
          omega arith,
        )
        | inr some_left ↦
            let left : 0 < e.size - size = ground (arith, some_left) in
            (
              rw (eq, some_left)
                  (
                    omega arith,
                    left,
                    omega arith,
                    Spaced-mono (e.offset + e.size + 1) _ hi es (omega arith) s.3,
                  ),
              omega arith,
              omega arith,
            )
      ]
    ]

pub take_fit-Aligned :
    (size : ℕ) (es : List Extent) (offset : ℕ) (es' : List Extent)
    → size % alignment ≡ 0
    → take_fit size es ≡ some (offset, es')
    → Aligned es
    → Aligned es' × (offset % alignment ≡ 0)
unfolding take_fit
take_fit-Aligned size [] offset es' m h a = ground (arith, h)
take_fit-Aligned size (e ∷ es) offset es' m h a = elim (take_fit-cases size e es offset es' h) [
  | inl (small, rest, found, eq) ↦
      let below = take_fit-Aligned size es offset rest m found a.2 in
      (rw eq (a.0, a.1, below.0), below.1)
  | inr (fits, at, eq) ↦ elim (Bool-cases (e.size - size == 0)) [
    | inl none_left ↦ (rw (eq, none_left) a.2, ground (arith, at, a.0))
    | inr some_left ↦ (
      rw (eq, some_left) (omega (arith, a.0, m), omega (arith, a.1, m, fits), a.2),
      ground (arith, at, a.0),
    )
  ]
]
