-- ===== src/Successors/Layout.antt =====
-- One push_back: the block stays inside the arena, and only its own cells or new ones are written.
use sub0pipeline.Prelude.{
  ℕ, ◌+◌, ◌-◌, ◌*◌, ◌/◌, ◌%◌, ◌^◌, ◌≤◌, ◌<◌, ◌≡◌, refl, ap, ◌∙◌, ◌≢◌, ◌⊎◌, inr, true, false, ◌&&◌,
  arith, ltb, leb, ◌==◌, if◌then◌else◌,
}
use sub0pipeline.Successors.{
  Slot, Arena, count_of, is_pool, block_start, block_capacity, resize, set_block, copy_block, entry,
  inline_cap, pool_count_mask,
}
use sub0pipeline.Successors.Copies.{copy_block_lem}

-- A block that starts at the end of the arena has a start of 32 bits.
abbrev pub HasRoom : Arena → Type 0
HasRoom a = a.len < 2 ^ 32

pub record SlotOk (s : Slot) (a : Arena) : Type 0 where
  pub word : s.size < 65536
  pub few : is_pool s ≡ false → count_of s ≤ inline_cap
  pub used : is_pool s ≡ true → count_of s ≤ block_capacity s
  pub nonempty : is_pool s ≡ true → 0 < block_capacity s
  pub bounded : is_pool s ≡ true → block_capacity s ≤ pool_count_mask
  pub inside : is_pool s ≡ true → block_start s + block_capacity s ≤ a.len

abbrev pub Within : Slot → ℕ → Type 0
Within s j = (is_pool s ≡ true) × (block_start s ≤ j) × (j < block_start s + block_capacity s)

-- Where the block is afterwards: at the old end of the arena, or where it was, and longer only if it
-- was the last one.
pub data Placed (s : Slot) (a : Arena) (s' : Slot) : Type 0 where
  unpooled : is_pool s' ≡ false → Placed s a s'
  fresh : a.len ≤ block_start s' → Placed s a s'
  stayed :
      is_pool s ≡ true
      → block_start s' ≡ block_start s
      → (block_capacity s' ≡ block_capacity s) ⊎ (block_start s + block_capacity s ≡ a.len)
      → Placed s a s'

pub record Pushed (v : ℕ) (s : Slot) (a : Arena) (s' : Slot) (a' : Arena) : Type 0 where
  pub ok : SlotOk s' a'
  pub more : count_of s' ≡ count_of s + 1
  pub old : (i : ℕ) → i < count_of s → entry s' a' i ≡ entry s a i
  pub last : entry s' a' (count_of s) ≡ v
  pub grows : a.len ≤ a'.len
  pub outside : (j : ℕ) → j < a.len → ¬ Within s j → a'.cell j ≡ a.cell j
  pub placed : Placed s a s'

-- The start of a block survives its split into two 16-bit halves.
pub set_block-start :
    (start c : ℕ) (s : Slot)
    → start < 2 ^ 32
    → (block_start (set_block start c s) ≡ start)
      × (block_capacity (set_block start c s) ≡ c)
      × ((set_block start c s).size ≡ s.size)
unfolding set_block
set_block-start start c s h = (omega arith, refl, refl)

-- A slot after grow: room for one more entry, with the old entries in place.
pub record Grown (s : Slot) (a : Arena) (s' : Slot) (a' : Arena) : Type 0 where
  pub ok : SlotOk s' a'
  pub same_size : s'.size ≡ s.size
  pub space : count_of s < block_capacity s'
  pub old : (i : ℕ) → i < count_of s → a'.cell (block_start s' + i) ≡ a.cell (block_start s + i)
  pub grows : a.len ≤ a'.len
  pub outside : (j : ℕ) → j < a.len → a'.cell j ≡ a.cell j
  pub placed : Placed s a s'

module _ (s : Slot) (a : Arena) (ok : SlotOk s a) (room : HasRoom a) (pooled : is_pool s ≡ true)
    (full : count_of s ≡ block_capacity s) (below : count_of s ≢ pool_count_mask) where
  abbrev pub doubled : ℕ
  doubled =
      if ltb (pool_count_mask / 2) (block_capacity s) then pool_count_mask else block_capacity s * 2

  doubled_bounds : (block_capacity s < doubled) × (doubled ≤ pool_count_mask)
  doubled_bounds = ground (arith, ok.nonempty pooled, ok.bounded pooled)

  pub grow_in_place :
      block_start s + block_capacity s ≡ a.len
      → Grown s a (set_block (block_start s) doubled s) (resize (block_start s + doubled) a)
  grow_in_place last =
      let bounds = doubled_bounds in
      let word = ok.word in
      let ends = ok.inside pooled in
      let (start', cap', size') =
        set_block-start (block_start s) doubled s (ground (arith, room, ends)) in
      let pooled' = ap (λ z. z / 32768 % 2 == 1) size' ∙ pooled in
      record {
        ok = record {
          word = omega arith;
          few = λ e. cc;
          used = λ _. ground arith;
          nonempty = λ _. ground arith;
          bounded = λ _. ground arith;
          inside = λ _. ground arith;
        };
        same_size = size';
        space = ground arith;
        old = λ i l. in_place i l (block_start (set_block (block_start s) doubled s)) start';
        grows = ground arith;
        outside = λ j l. ground arith;
        placed = stayed pooled start' (inr last);
      }
    where
      in_place :
          (i : ℕ)
          → i < count_of s
          → (at : ℕ) → at ≡ block_start s
          → (resize (block_start s + doubled) a).cell (at + i) ≡ a.cell (block_start s + i)
      in_place i l at e = rw e (ground (arith, ok.inside pooled))

  pub grow_move : Grown s a (set_block a.len doubled s) (record (resize (a.len + doubled) a) {
    cell = copy_block (count_of s) (block_start s) a.len (resize (a.len + doubled) a).cell;
  })
  grow_move =
      let bounds = doubled_bounds in
      let word = ok.word in
      let ends = ok.inside pooled in
      let (start', cap', size') = set_block-start a.len doubled s (omega arith) in
      let pooled' = ap (λ z. z / 32768 % 2 == 1) size' ∙ pooled in
      record {
        ok = record {
          word = omega arith;
          few = λ e. cc;
          used = λ _. ground arith;
          nonempty = λ _. ground arith;
          bounded = λ _. ground arith;
          inside = λ _. ground arith;
        };
        same_size = size';
        space = ground arith;
        old = λ i l. moved i l (block_start (set_block a.len doubled s)) start';
        grows = ground arith;
        outside = λ j l. copied j ∙ ground arith;
        placed = fresh (ground arith);
      }
    where
      bigger : ℕ → ℕ
      bigger = (resize (a.len + doubled) a).cell

      copied :
          (j : ℕ)
          → copy_block (count_of s) (block_start s) a.len bigger j ≡ (
              if leb a.len j && ltb j (a.len + count_of s)
              then bigger (block_start s + (j - a.len))
              else bigger j)
      copied j =
          copy_block_lem (count_of s) (block_start s) a.len bigger j
            (omega (arith, ok.inside pooled, full))

      moved :
          (i : ℕ)
          → i < count_of s
          → (at : ℕ) → at ≡ a.len
          → copy_block (count_of s) (block_start s) a.len bigger (at + i)
            ≡ a.cell (block_start s + i)
      moved i l at e =
          let back : block_start s + (at + i - a.len) ≡ block_start s + i = omega arith in
          copied (at + i) ∙ ground (arith, back, ap bigger back, ok.inside pooled, full)
