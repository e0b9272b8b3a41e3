-- ===== src/Region/Alignment.antt =====
-- Every entry of the free list stays aligned when an extent is put back.
use sub0pipeline.Prelude.{◌+◌, ◌%◌, ◌≡◌, inl, inr, List, [], ◌∷◌, arith, ltb, ◌==◌, Bool-cases}
use sub0pipeline.Region.{Extent, alignment, merge_next, merge_previous, put_after, put}
use sub0pipeline.Region.Extents.{Aligned}

merge_next-Aligned :
    (e : Extent) (fs : List Extent)
    → e.offset % alignment ≡ 0
    → e.size % alignment ≡ 0
    → Aligned fs
    → Aligned (merge_next e fs)
merge_next-Aligned e [] at whole a = (at, whole, tt)
merge_next-Aligned e (g ∷ gs) at whole a = elim (Bool-cases (e.offset + e.size == g.offset)) [
  | inl touch ↦ rw touch (at, omega (arith, whole, a.1), a.2)
  | inr apart ↦ rw apart (at, whole, (a.0, a.1, a.2))
]

merge_previous-Aligned :
    (f : Extent) (es : List Extent)
    → f.offset % alignment ≡ 0
    → f.size % alignment ≡ 0
    → Aligned es
    → Aligned (merge_previous f es)
merge_previous-Aligned f [] at whole a = (at, whole, tt)
merge_previous-Aligned f (e ∷ es) at whole a = elim (Bool-cases (f.offset + f.size == e.offset)) [
  | inl touch ↦ rw touch (at, omega (arith, whole, a.1), a.2)
  | inr apart ↦ rw apart (at, whole, (a.0, a.1, a.2))
]

put_after-Aligned :
    (e f : Extent) (fs : List Extent)
    → e.offset % alignment ≡ 0
    → e.size % alignment ≡ 0
    → Aligned (f ∷ fs)
    → Aligned (put_after e f fs)
unfolding put_after
put_after-Aligned e f [] at whole a = merge_previous-Aligned f (e ∷ []) a.0 a.1 (at, whole, tt)
put_after-Aligned e f (g ∷ gs) at whole a = elim (Bool-cases (ltb e.offset g.offset)) [
  | inl before ↦ rw before (
      merge_previous-Aligned f (merge_next e (g ∷ gs)) a.0 a.1
        (merge_next-Aligned e (g ∷ gs) at whole a.2))
  | inr beyond ↦ elim (Bool-cases (e.offset == g.offset)) [
    | inl same ↦ rw (beyond, same) a
    | inr other ↦ rw (beyond, other) (a.0, a.1, put_after-Aligned e g gs at whole a.2)
  ]
]

pub put-Aligned :
    (e : Extent) (fs : List Extent)
    → e.offset % alignment ≡ 0
    → e.size % alignment ≡ 0
    → Aligned fs
    → Aligned (put e fs)
unfolding put
put-Aligned e [] at whole a = (at, whole, tt)
put-Aligned e (f ∷ fs) at whole a = elim (Bool-cases (ltb e.offset f.offset)) [
  | inl before ↦ rw before (merge_next-Aligned e (f ∷ fs) at whole a)
  | inr beyond ↦ elim (Bool-cases (e.offset == f.offset)) [
    | inl same ↦ rw (beyond, same) a
    | inr other ↦ rw (beyond, other) (put_after-Aligned e f fs at whole a)
  ]
]
