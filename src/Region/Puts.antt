-- ===== src/Region/Puts.antt =====
-- The free list after an extent is put back: the cells, the order and the size.
use sub0pipeline.Prelude.{
  ℕ, ◌+◌, ◌≤◌, ◌<◌, ◌≡◌, refl, inl, inr, List, [], ◌∷◌, arith, ltb, ◌==◌, Bool-cases,
}
use sub0pipeline.Region.{Extent, merge_next, merge_previous, put_after, put}
use sub0pipeline.Region.Extents.{covers, free_cover, free_total, Spaced, Clear, Spaced-mono}

merge_next-cover :
    (e : Extent) (es : List Extent) (x : ℕ)
    → free_cover (merge_next e es) x ≡ covers e.offset e.size x + free_cover es x
merge_next-cover e [] x = refl
merge_next-cover e (g ∷ gs) x = ground arith

merge_previous-cover :
    (f : Extent) (es : List Extent) (x : ℕ)
    → free_cover (merge_previous f es) x ≡ covers f.offset f.size x + free_cover es x
merge_previous-cover f [] x = refl
merge_previous-cover f (e ∷ es) x = ground arith

put_after-cover :
    (lo hi : ℕ) (e f : Extent) (fs : List Extent) (x : ℕ)
    → 0 < e.size
    → Spaced lo hi fs
    → Clear e fs
    → free_cover (put_after e f fs) x
      ≡ covers f.offset f.size x + free_cover fs x + covers e.offset e.size x
unfolding put_after
put_after-cover lo hi e f [] x pos s clear = ground (arith, merge_previous-cover f (e ∷ []) x)
put_after-cover lo hi e f (g ∷ gs) x pos s clear = elim (Bool-cases (ltb e.offset g.offset)) [
  | inl before ↦ rw before (
      omega
        (arith, merge_previous-cover f (merge_next e (g ∷ gs)) x, merge_next-cover e (g ∷ gs) x))
  | inr after ↦ elim (Bool-cases (e.offset == g.offset)) [
    | inl same ↦ absurd (ground (arith, same, clear, s.1))
    | inr other ↦
        rw (after, other)
          (omega (arith, put_after-cover (g.offset + g.size + 1) hi e g gs x pos s.3 clear.1))
  ]
]

-- A block that is put back makes its own cells free, and no other.
pub put-cover :
    (lo hi : ℕ) (e : Extent) (fs : List Extent) (x : ℕ)
    → 0 < e.size
    → Spaced lo hi fs
    → Clear e fs
    → free_cover (put e fs) x ≡ free_cover fs x + covers e.offset e.size x
unfolding put
put-cover lo hi e [] x pos s clear = omega arith
put-cover lo hi e (f ∷ fs) x pos s clear = elim (Bool-cases (ltb e.offset f.offset)) [
  | inl before ↦ rw before (omega (arith, merge_next-cover e (f ∷ fs) x))
  | inr after ↦ elim (Bool-cases (e.offset == f.offset)) [
    | inl same ↦ absurd (ground (arith, same, clear, s.1))
    | inr other ↦
        rw (after, other)
          (omega (arith, put_after-cover (f.offset + f.size + 1) hi e f fs x pos s.3 clear.1))
  ]
]

merge_next-Spaced :
    (lo hi : ℕ) (e : Extent) (fs : List Extent)
    → lo ≤ e.offset
    → 0 < e.size
    → e.offset + e.size ≤ hi
    → Spaced (e.offset + 1) hi fs
    → Clear e fs
    → Spaced lo hi (merge_next e fs)
merge_next-Spaced lo hi e [] low pos high s clear = (low, pos, high, tt)
merge_next-Spaced lo hi e (g ∷ gs) low pos high s clear =
    elim (Bool-cases (e.offset + e.size == g.offset)) [
      | inl touch ↦ rw touch (
        low,
        omega arith,
        ground (arith, touch),
        Spaced-mono (g.offset + g.size + 1) _ hi gs (ground (arith, touch)) s.3,
      )
      | inr apart ↦ rw apart (low, pos, high, (ground (arith, apart, clear.0), s.1, s.2, s.3))
    ]

-- The entry before a list whose first entry does not reach into it.
merge_previous-Spaced :
    (lo hi : ℕ) (f : Extent) (es : List Extent)
    → lo ≤ f.offset
    → 0 < f.size
    → f.offset + f.size ≤ hi
    → Spaced (f.offset + f.size) hi es
    → Spaced lo hi (merge_previous f es)
merge_previous-Spaced lo hi f [] low pos high s = (low, pos, high, tt)
merge_previous-Spaced lo hi f (e ∷ es) low pos high s =
    elim (Bool-cases (f.offset + f.size == e.offset)) [
      | inl touch ↦ rw touch (
        low,
        omega arith,
        ground (arith, touch),
        Spaced-mono (e.offset + e.size + 1) _ hi es (ground (arith, touch)) s.3,
      )
      | inr apart ↦ rw apart (low, pos, high, (ground (arith, apart), s.1, s.2, s.3))
    ]

put_after-Spaced :
    (lo hi : ℕ) (e f : Extent) (fs : List Extent)
    → 0 < e.size
    → e.offset + e.size ≤ hi
    → f.offset + f.size ≤ e.offset
    → Spaced lo hi (f ∷ fs)
    → Clear e fs
    → Spaced lo hi (put_after e f fs)
unfolding put_after
put_after-Spaced lo hi e f [] pos high after s clear =
    merge_previous-Spaced lo hi f (e ∷ []) s.0 s.1 s.2 (after, pos, high, tt)
put_after-Spaced lo hi e f (g ∷ gs) pos high after s clear =
    elim (Bool-cases (ltb e.offset g.offset)) [
      | inl before ↦ rw before (
          merge_previous-Spaced lo hi f (merge_next e (g ∷ gs)) s.0 s.1 s.2 (
            merge_next-Spaced (f.offset + f.size) hi e (g ∷ gs) after pos high
              (ground (arith, before), s.3.1, s.3.2, s.3.3) clear))
      | inr beyond ↦ elim (Bool-cases (e.offset == g.offset)) [
        | inl same ↦ absurd (ground (arith, same, clear, s.3.1))
        | inr other ↦
            rw (beyond, other)
              (
                s.0,
                s.1,
                s.2,
                put_after-Spaced (f.offset + f.size + 1) hi e g gs pos high
                    (ground (arith, beyond, other, clear.0, pos)) s.3 clear.1,
              )
      ]
    ]

pub put-Spaced :
    (lo hi : ℕ) (e : Extent) (fs : List Extent)
    → lo ≤ e.offset
    → 0 < e.size
    → e.offset + e.size ≤ hi
    → Spaced lo hi fs
    → Clear e fs
    → Spaced lo hi (put e fs)
unfolding put
put-Spaced lo hi e [] low pos high s clear = (low, pos, high, tt)
put-Spaced lo hi e (f ∷ fs) low pos high s clear = elim (Bool-cases (ltb e.offset f.offset)) [
  | inl before ↦ rw before (
      merge_next-Spaced lo hi e (f ∷ fs) low pos high (ground (arith, before), s.1, s.2, s.3) clear)
  | inr beyond ↦ elim (Bool-cases (e.offset == f.offset)) [
    | inl same ↦ absurd (ground (arith, same, clear, s.1))
    | inr other ↦
        rw (beyond, other)
          (put_after-Spaced lo hi e f fs pos high (ground (arith, beyond, other, clear.0, pos)) s
            clear.1)
  ]
]

put_after-total :
    (lo hi : ℕ) (e f : Extent) (fs : List Extent)
    → 0 < e.size
    → Spaced lo hi fs
    → Clear e fs
    → free_total (put_after e f fs) ≡ f.size + free_total fs + e.size
unfolding put_after
put_after-total lo hi e f [] pos s clear = ground arith
put_after-total lo hi e f (g ∷ gs) pos s clear =
    ground (arith, clear.0, s.1, put_after-total (g.offset + g.size + 1) hi e g gs pos s.3 clear.1)

pub put-total :
    (lo hi : ℕ) (e : Extent) (fs : List Extent)
    → 0 < e.size
    → Spaced lo hi fs
    → Clear e fs
    → free_total (put e fs) ≡ free_total fs + e.size
unfolding put
put-total lo hi e [] pos s clear = omega arith
put-total lo hi e (f ∷ fs) pos s clear =
    ground (arith, clear.0, s.1, put_after-total (f.offset + f.size + 1) hi e f fs pos s.3 clear.1)
