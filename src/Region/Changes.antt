-- ===== src/Region/Changes.antt =====
-- A block that changes its counts, or is given back, and the cells.
use mathlib.Core.Path.{subst}
use sub0pipeline.Prelude.{
  ℕ, ◌-◌, ◌≡◌, refl, sym, ◌⊎◌, inl, inr, true, false, some, List, [], ◌∷◌, arith, ◌==◌,
  Option-cases, Bool-cases,
}
use sub0pipeline.Region.{
  Extent, Block, State, usable, put, find_block, erase_block, change_block, release_if_unused,
  unused, erase_address,
}
use sub0pipeline.Region.Extents.{Clear, Clear-cover}
use sub0pipeline.Region.Puts.{put-total, put-cover, put-Spaced}
use sub0pipeline.Region.Alignment.{put-Aligned}
use sub0pipeline.Region.Cells.{
  block_cover, block_total, BlockOk, BlocksOk, Laid, find_block-cover, find_block-total,
  find_block-BlockOk,
}

change_block-cover :
    (f : Block → Block)
    → ((b : Block) → ((f b).offset ≡ b.offset) × ((f b).size ≡ b.size) × ((f b).id ≡ b.id))
    → (id : ℕ) (bs : List Block) (x : ℕ) → block_cover (change_block f id bs) x ≡ block_cover bs x
unfolding change_block
change_block-cover f same id [] x = refl
change_block-cover f same id (b ∷ bs) x = ground (arith, same b, change_block-cover f same id bs x)

change_block-total :
    (f : Block → Block)
    → ((b : Block) → ((f b).offset ≡ b.offset) × ((f b).size ≡ b.size) × ((f b).id ≡ b.id))
    → (id : ℕ) (bs : List Block) → block_total (change_block f id bs) ≡ block_total bs
unfolding change_block
change_block-total f same id [] = refl
change_block-total f same id (b ∷ bs) = ground (arith, same b, change_block-total f same id bs)

change_block-BlocksOk :
    (f : Block → Block)
    → ((b : Block) → ((f b).offset ≡ b.offset) × ((f b).size ≡ b.size) × ((f b).id ≡ b.id))
    → (n next id : ℕ) (bs : List Block) → BlocksOk n next bs
    → BlocksOk n next (change_block f id bs)
unfolding change_block
change_block-BlocksOk f same n next id [] ok = tt
change_block-BlocksOk f same n next id (b ∷ bs) ok = elim (Bool-cases (b.id == id)) [
  | inl found ↦ rw found (
    record {
      nonempty = omega (arith, same b, ok.0.nonempty);
      inside = omega (arith, same b, ok.0.inside);
      aligned = omega (arith, same b, ok.0.aligned);
      whole = omega (arith, same b, ok.0.whole);
      old = omega (arith, same b, ok.0.old);
    },
    ok.1,
  )
  | inr other ↦ rw other (ok.0, change_block-BlocksOk f same n next id bs ok.1)
]

-- A change of counts keeps the region laid out.
pub change_block-Laid :
    (f : Block → Block)
    → ((b : Block) → ((f b).offset ≡ b.offset) × ((f b).size ≡ b.size) × ((f b).id ≡ b.id))
    → (n id : ℕ) (s : State) → Laid n s
    → Laid n (record s { blocks = change_block f id s.blocks })
change_block-Laid f same n id s laid = record {
  region = laid.region;
  spaced = laid.spaced;
  aligned = laid.aligned;
  blocks = change_block-BlocksOk f same (usable n) s.next_block id s.blocks laid.blocks;
  cells = λ x. omega (arith, laid.cells x, change_block-cover f same id s.blocks x);
  used = omega (arith, laid.used, change_block-total f same id s.blocks);
  total = laid.total;
}

-- The block that is given back.
abbrev given : Block → Extent
given b = record { offset = b.offset; size = b.size }

abbrev pub without : ℕ → Block → State → State
without id b s = record s {
  blocks = erase_block id s.blocks;
  by_address = erase_address b.offset s.by_address;
  in_use = s.in_use - b.size;
  free = put (given b) s.free;
}

pub release_if_unused-cases :
    (id : ℕ) (s : State)
    → ((release_if_unused id s ≡ s)
        × ((b : Block) → find_block id s.blocks ≡ some b → unused b ≡ false))
      ⊎ ((b : Block) × (find_block id s.blocks ≡ some b)
          × (unused b ≡ true)
          × (release_if_unused id s ≡ without id b s))
unfolding release_if_unused
release_if_unused-cases id s = elim (Option-cases (find_block id s.blocks)) [
  | inl none_there ↦ inl (ground (arith, none_there), λ b h. ground (arith, none_there, h))
  | inr (b, found) ↦ elim (Bool-cases (unused b)) [
    | inl idle ↦ inr (b, found, idle, ground (arith, found, idle))
    | inr busy ↦ inl (ground (arith, found, busy), λ c h. ground (arith, found, busy, h))
  ]
]

without-Laid :
    (n id : ℕ) (b : Block) (s : State)
    → Laid n s
    → find_block id s.blocks ≡ some b
    → Laid n (without id b s)
without-Laid n id b s laid found = record {
  region = laid.region;
  spaced =
      put-Spaced 0 (usable n) (given b) s.free (omega arith) ok.0.nonempty ok.0.inside laid.spaced
        clear;
  aligned = put-Aligned (given b) s.free ok.0.aligned ok.0.whole laid.aligned;
  blocks = ok.1;
  cells = λ x. omega (
    arith,
    laid.cells x,
    find_block-cover id s.blocks b x found,
    put-cover 0 (usable n) (given b) s.free x ok.0.nonempty laid.spaced clear,
  );
  used = omega (arith, laid.used, find_block-total id s.blocks b found);
  total = omega (
    arith,
    laid.total,
    laid.used,
    find_block-total id s.blocks b found,
    put-total 0 (usable n) (given b) s.free ok.0.nonempty laid.spaced clear,
  );
}
  where
    ok :
        BlockOk (usable n) s.next_block b
        × BlocksOk (usable n) s.next_block (erase_block id s.blocks)
    ok = find_block-BlockOk (usable n) s.next_block id s.blocks b found laid.blocks

    clear : Clear (given b) s.free
    clear =
        Clear-cover 0 (usable n) (given b) s.free laid.spaced ok.0.nonempty
          λ x c. ground (arith, c, laid.cells x, find_block-cover id s.blocks b x found)

pub release_if_unused-Laid : (n id : ℕ) (s : State) → Laid n s → Laid n (release_if_unused id s)
release_if_unused-Laid n id s laid = elim (release_if_unused-cases id s) [
  | inl (same, busy) ↦ subst (Laid n) (sym same) laid
  | inr (b, found, idle, eq) ↦ subst (Laid n) (sym eq) (without-Laid n id b s laid found)
]
