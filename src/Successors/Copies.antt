-- ===== src/Successors/Copies.antt =====
-- What the copying loops leave in the arena.
use sub0pipeline.Prelude.{
  ℕ, zero, suc, ◌+◌, ◌-◌, ◌≤◌, ◌≡◌, ap, ℕ_discrete, ◌&&◌, arith, ltb, leb, if◌then◌else◌,
}
use sub0pipeline.Successors.{copy_inline, copy_block}

pub copy_inline_lem :
    (n : ℕ) (src : ℕ → ℕ) (start : ℕ) (cell : ℕ → ℕ) (j : ℕ)
    → copy_inline n src start cell j
      ≡ (if leb start j && ltb j (start + n) then src (j - start) else cell j)
unfolding copy_inline
copy_inline_lem zero src start cell j = ground arith
copy_inline_lem (suc k) src start cell j = at (copy_inline_lem k src start cell j) (Decide j)
  where
    Decide : (j : ℕ) → Dec (start + k ≡ j)
    Decide j = ℕ_discrete (start + k) j

    at :
        copy_inline k src start cell j
          ≡ (if leb start j && ltb j (start + k) then src (j - start) else cell j)
        → Dec (start + k ≡ j)
        → copy_inline (suc k) src start cell j
          ≡ (if leb start j && ltb j (start + suc k) then src (j - start) else cell j)
    at ih (yes e) = let e' : j - start ≡ k = omega arith in ground (arith, ap src e')
    at ih (no other) = ground (arith, ih)

pub copy_block_lem :
    (n start moved : ℕ) (cell : ℕ → ℕ) (j : ℕ)
    → start + n ≤ moved
    → copy_block n start moved cell j
      ≡ (if leb moved j && ltb j (moved + n) then cell (start + (j - moved)) else cell j)
unfolding copy_block
copy_block_lem zero start moved cell j h = ground arith
copy_block_lem (suc k) start moved cell j h =
    at (copy_block_lem k start moved cell j (omega arith))
      (copy_block_lem k start moved cell (start + k) (omega arith)) (ℕ_discrete (moved + k) j)
  where
    at :
        copy_block k start moved cell j
          ≡ (if leb moved j && ltb j (moved + k) then cell (start + (j - moved)) else cell j)
        → copy_block k start moved cell (start + k) ≡ (
            if leb moved (start + k) && ltb (start + k) (moved + k)
            then cell (start + (start + k - moved))
            else cell (start + k))
        → Dec (moved + k ≡ j)
        → copy_block (suc k) start moved cell j
          ≡ (if leb moved j && ltb j (moved + suc k) then cell (start + (j - moved)) else cell j)
    at ih src (yes e) =
        let e' : start + (j - moved) ≡ start + k = omega arith in ground (arith, src, ap cell e')
    at ih src (no other) = ground (arith, ih)
