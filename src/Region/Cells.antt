-- ===== src/Region/Cells.antt =====
-- Every cell of the region is free or in one block, and stays so.
use mathlib.Core.Path.{subst, subst₂}
use sub0pipeline.Prelude.{
  ℕ, ◌+◌, ◌%◌, ◌^◌, ◌≤◌, ◌<◌, ◌≡◌, refl, inl, inr, some, List, [], ◌∷◌, arith, ltb, ◌==◌,
  if◌then◌else◌, Option-cases, Bool-cases,
}
use sub0pipeline.Region.{
  Extent, Block, State, alignment, usable, init_free, block_size, take_fit, allocate_block,
  find_block, erase_block,
}
use sub0pipeline.Region.Extents.{
  covers, free_cover, free_total, Spaced, take_fit-Aligned, Aligned, take_fit-cover, take_fit-total,
  take_fit-Spaced,
}

abbrev pub block_cover : List Block → ℕ → ℕ
block_cover [] x = 0
block_cover (b ∷ bs) x = covers b.offset b.size x + block_cover bs x

abbrev pub block_total : List Block → ℕ
block_total [] = 0
block_total (b ∷ bs) = b.size + block_total bs

-- A block of a region with `n` usable bytes, whose id is below `next`.
pub record BlockOk (n next : ℕ) (b : Block) : Type 0 where
  pub nonempty : 0 < b.size
  pub inside : b.offset + b.size ≤ n
  pub aligned : b.offset % alignment ≡ 0
  pub whole : b.size % alignment ≡ 0
  pub old : b.id < next

abbrev pub BlocksOk : ℕ → ℕ → List Block → Type 0
BlocksOk n next [] = Unit {0}
BlocksOk n next (b ∷ bs) = BlockOk n next b × BlocksOk n next bs

-- Each usable cell is in exactly one free entry or block, and the counters agree with that.
pub record Laid (n : ℕ) (s : State) : Type 0 where
  pub region : s.region_bytes ≡ some n
  pub spaced : Spaced 0 (usable n) s.free
  pub aligned : Aligned s.free
  pub blocks : BlocksOk (usable n) s.next_block s.blocks
  pub cells :
      (x : ℕ) → free_cover s.free x + block_cover s.blocks x ≡ (if ltb x (usable n) then 1 else 0)
  pub used : s.in_use ≡ block_total s.blocks
  pub total : free_total s.free + s.in_use ≡ usable n

block_size_lem : (bytes : ℕ) → (0 < block_size bytes) × (block_size bytes % alignment ≡ 0)
unfolding block_size
block_size_lem bytes = (ground arith, ground arith)

BlocksOk-mono : (n next : ℕ) (bs : List Block) → BlocksOk n next bs → BlocksOk n (next + 1) bs
BlocksOk-mono n next [] h = tt
BlocksOk-mono n next (b ∷ bs) h = (
  record {
    nonempty = h.0.nonempty;
    inside = h.0.inside;
    aligned = h.0.aligned;
    whole = h.0.whole;
    old = omega (arith, h.0.old);
  },
  BlocksOk-mono n next bs h.1,
)

pub find_block-cover :
    (id : ℕ) (bs : List Block) (b : Block) (x : ℕ)
    → find_block id bs ≡ some b
    → block_cover bs x ≡ covers b.offset b.size x + block_cover (erase_block id bs) x
unfolding find_block erase_block
find_block-cover id [] b x h = ground (arith, h)
find_block-cover id (c ∷ bs) b x h = ground (arith, h, find_block-cover id bs b x)

pub find_block-total :
    (id : ℕ) (bs : List Block) (b : Block)
    → find_block id bs ≡ some b
    → block_total bs ≡ b.size + block_total (erase_block id bs)
unfolding find_block erase_block
find_block-total id [] b h = ground (arith, h)
find_block-total id (c ∷ bs) b h = ground (arith, h, find_block-total id bs b)

pub find_block-BlockOk :
    (n next id : ℕ) (bs : List Block) (b : Block)
    → find_block id bs ≡ some b
    → BlocksOk n next bs
    → BlockOk n next b × BlocksOk n next (erase_block id bs)
unfolding find_block erase_block
find_block-BlockOk n next id [] b h ok = ground (arith, h)
find_block-BlockOk n next id (c ∷ bs) b h ok = elim (Bool-cases (c.id == id)) [
  | inl found ↦ (subst (BlockOk n next) (ground (arith, h, found)) ok.0, rw found ok.1)
  | inr other ↦
      let below = find_block-BlockOk n next id bs b (ground (arith, h, other)) ok.1 in
      (below.0, rw other (ok.0, below.1))
]

-- The layout does not depend on the addresses and the scopes.
pub Laid-others :
    (n : ℕ) (s : State) (addresses : List (ℕ × ℕ)) (scopes : List (ℕ × List ℕ))
    → Laid n s
    → Laid n (record s { by_address = addresses; scopes = scopes })
Laid-others n s addresses scopes laid = record {
  region = laid.region;
  spaced = laid.spaced;
  aligned = laid.aligned;
  blocks = laid.blocks;
  cells = laid.cells;
  used = laid.used;
  total = laid.total;
}

-- What a new region starts with.
pub init_free-Laid :
    (n : ℕ) (s : State)
    → s.region_bytes ≡ some n
    → s.blocks ≡ []
    → s.in_use ≡ 0
    → Laid n (init_free s)
unfolding init_free
init_free-Laid n s region no_blocks none_used = record {
  region = region;
  spaced = ground (arith, region);
  aligned = ground (arith, region);
  blocks = rw no_blocks tt;
  cells = λ x. ground (arith, region, no_blocks);
  used = ground (arith, no_blocks, none_used);
  total = ground (arith, region, none_used);
}

-- A block that is allocated is aligned, large enough, new, and made of cells that were free.
pub record Allocated (n bytes : ℕ) (s : State) (b : Block) (s' : State) : Type 0 where
  pub laid : Laid n s'
  pub ok : BlockOk (usable n) s'.next_block b
  pub large : bytes < 2 ^ 63 → bytes ≤ b.size
  pub was_free : (x : ℕ) → covers b.offset b.size x ≡ 1 → free_cover s.free x ≡ 1
  pub added : s'.blocks ≡ b ∷ s.blocks
  pub fresh : b.id ≡ s.next_block
  pub unheld : b.peer_holds ≡ 0
  pub addresses : s'.by_address ≡ s.by_address

abbrev new_block : ℕ → State → ℕ → Block
new_block bytes s offset = record {
  id = s.next_block;
  offset = offset;
  size = block_size bytes;
  local_refs = 0;
  peer_holds = 0;
}

abbrev with_block : ℕ → State → ℕ → List Extent → State
with_block bytes s offset free = record s {
  free = free;
  in_use = s.in_use + block_size bytes;
  blocks = new_block bytes s offset ∷ s.blocks;
  next_block = s.next_block + 1;
}

block_size-large : (bytes : ℕ) → bytes < 2 ^ 63 → bytes ≤ block_size bytes
unfolding block_size
block_size-large bytes h = ground (arith, h)

with_block-Allocated :
    (n bytes : ℕ) (s : State) (offset : ℕ) (free : List Extent)
    → Laid n s
    → take_fit (block_size bytes) s.free ≡ some (offset, free)
    → Allocated n bytes s (new_block bytes s offset) (with_block bytes s offset free)
with_block-Allocated n bytes s offset free laid found = record {
  laid = record {
    region = laid.region;
    spaced = space.0;
    aligned = lined.0;
    blocks = (ok, BlocksOk-mono (usable n) s.next_block s.blocks laid.blocks);
    cells = λ x.
        omega (arith, laid.cells x, take_fit-cover (block_size bytes) s.free offset free x found);
    used = omega (arith, laid.used);
    total = omega (arith, laid.total, take_fit-total (block_size bytes) s.free offset free found);
  };
  ok = ok;
  large = block_size-large bytes;
  was_free = λ x c.
      ground (arith, c, laid.cells x, take_fit-cover (block_size bytes) s.free offset free x found);
  added = refl;
  fresh = refl;
  addresses = refl;
  unheld = refl;
}
  where
    space : Spaced 0 (usable n) free × (0 ≤ offset) × (offset + block_size bytes ≤ usable n)
    space =
        take_fit-Spaced (block_size bytes) 0 (usable n) s.free offset free (block_size_lem bytes).0
          found laid.spaced

    lined : Aligned free × (offset % alignment ≡ 0)
    lined =
        take_fit-Aligned (block_size bytes) s.free offset free (block_size_lem bytes).1 found
          laid.aligned

    ok : BlockOk (usable n) (s.next_block + 1) (new_block bytes s offset)
    ok = record {
      nonempty = (block_size_lem bytes).0;
      inside = space.2;
      aligned = lined.1;
      whole = (block_size_lem bytes).1;
      old = omega arith;
    }

pub allocate_block-Allocated :
    (n bytes : ℕ) (s : State) (b : Block) (s' : State)
    → s.next_block + 1 < 2 ^ 64
    → Laid n s
    → allocate_block bytes s ≡ some (b, s')
    → Allocated n bytes s b s'
unfolding allocate_block
allocate_block-Allocated n bytes s b s' ids laid h =
    elim (Option-cases (take_fit (block_size bytes) s.free)) [
      | inl stop ↦ ground (arith, h, stop, laid.region)
      | inr ((offset, free), found) ↦
          subst₂ (Allocated n bytes s) (ground (arith, h, found, laid.region, ids))
            (ground (arith, h, found, laid.region, ids))
            (with_block-Allocated n bytes s offset free laid found)
    ]
