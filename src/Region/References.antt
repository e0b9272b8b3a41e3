-- ===== src/Region/References.antt =====
-- The references that name bytes of the peer's region.
use sub0pipeline.Prelude.{
  ℕ, ◌+◌, ◌^◌, ◌≤◌, ◌<◌, ◌≡◌, refl, some, List, [], ◌∷◌, ◌++◌, arith, length,
}
use sub0pipeline.Wire.{little, join, take, drop}
use sub0pipeline.Wire.Reads.{join-little}
use sub0pipeline.Region.{Block, State, find_block, usable}
use sub0pipeline.Region.Cells.{find_block-BlockOk}
use sub0pipeline.Region.Life.{Life, Life-Held}
use sub0pipeline.Region.Sharing.{receive, reference_of}

-- A view that receive answers lies inside the peer's region, whatever the bytes of the
-- reference.
receive_bounds :
    (peer : ℕ) (reference : List ℕ) (id offset size : ℕ)
    → receive (some peer) reference ≡ some (id, offset, size)
    → offset + size ≤ peer
unfolding receive
receive_bounds peer [] id offset size h = ground (arith, h)
receive_bounds peer (kind ∷ rest) id offset size h = ground (arith, h)

abbrev three : ℕ → ℕ → ℕ → List ℕ
three id offset size = little 8 id ++ (little 8 offset ++ little 8 size)

three_lem :
    (id offset size : ℕ)
    → id < 2 ^ 64
    → offset < 2 ^ 64
    → size < 2 ^ 64
    → (length (three id offset size) ≡ 24)
      × (join (take 8 (three id offset size)) ≡ id)
      × (join (take 8 (drop 8 (three id offset size))) ≡ offset)
      × (join (drop 16 (three id offset size)) ≡ size)
unfolding little
three_lem id offset size hi ho hs =
    (refl, join-little 8 id hi, join-little 8 offset ho, join-little 8 size hs)

-- In a region of fewer than 2^64 bytes, the reference to the first bytes of a block whose id
-- fits 64 bits is read back by a peer that has the region mapped: the block's id and a view of
-- these bytes.
pub receive-reference_of :
    {n : ℕ} {s : State} (id bytes : ℕ) (b : Block)
    → Life n s
    → find_block id s.blocks ≡ some b
    → bytes ≤ b.size
    → n < 2 ^ 64
    → id < 2 ^ 64
    → receive (some n) (reference_of id b.offset bytes) ≡ some (id, b.offset, bytes)
unfolding receive reference_of little
receive-reference_of {n} {s} id bytes b l found fits small key =
    let ok =
      (find_block-BlockOk (usable n) s.next_block id s.blocks b found
        (Life-Held l).laid.blocks).0 in
    let (size, one, two, last) =
      three_lem id b.offset bytes key (omega (arith, ok.inside)) (omega (arith, ok.inside)) in
    ground (arith, size, one, two, last, ok.inside, fits)
