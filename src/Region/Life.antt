-- ===== src/Region/Life.antt =====
-- The life of a region: what holds after any sequence of the strategy's operations.
use mathlib.Core.Path.{subst}
use sub0pipeline.Prelude.{
  ℕ, ◌+◌, ◌%◌, ◌^◌, ◌≤◌, ◌<◌, ◌≡◌, refl, sym, ◌⊎◌, inl, inr, Option, some, List, [], ◌∷◌, arith,
  ltb, ◌==◌, if◌then◌else◌, Bool-cases,
}
use sub0pipeline.Region.{
  Extent, Block, State, alignment, usable, find_block, find_address, drop_local, drop_peer_hold,
  init_free, release_if_unused, erase_block,
}
use sub0pipeline.Region.Extents.{covers, free_cover, Spaced, free_cover-below}
use sub0pipeline.Region.Cells.{block_cover, BlocksOk, init_free-Laid}
use sub0pipeline.Region.Changes.{release_if_unused-cases}
use sub0pipeline.Region.Held.{HeldBut}
use sub0pipeline.Region.Uses.{Held}
use sub0pipeline.Region.Operations.{
  drop_local-Held, drop_peer_hold-Held, end_scope-Held, allocate-Held, send-Held, on_closed-Held,
}
use sub0pipeline.Region.Sharing.{
  allocate, send, end_scope, on_closed, clear_holds, ids_of, release_all,
}

-- No block is held by the peer 2^32 - 1 times.
abbrev pub HasRoom : State → Type 0
HasRoom s = (b : Block) (id : ℕ) → find_block id s.blocks ≡ some b → b.peer_holds + 1 < 2 ^ 32

-- Ids are 64 bits wide, and have not come round.
abbrev pub HasIds : State → Type 0
HasIds s = s.next_block + 1 < 2 ^ 64

-- A strategy before offer or accept has made its region.
pub record New (n : ℕ) (s : State) : Type 0 where
  pub region : s.region_bytes ≡ some n
  pub blocks : s.blocks ≡ []
  pub in_use : s.in_use ≡ 0
  pub addresses : s.by_address ≡ []

-- The states of a region of `n` bytes.
pub data Life (n : ℕ) : State → Type 0 where
  offered : {s : State} → New n s → Life n (init_free s)
  allocated :
      {s s' : State} (bytes : ℕ) (b : Block)
      → HasIds s
      → Life n s
      → allocate bytes s ≡ some (b, s')
      → Life n s'
  sent :
      {s : State} (address : Option ℕ) (bytes scope : ℕ)
      → Life n s
      → HasRoom s
      → HasIds s
      → Life n (send address bytes scope s).1
  dropped : {s : State} (id : ℕ) → Life n s → Life n (drop_local id s)
  released : {s : State} (id : ℕ) → Life n s → Life n (drop_peer_hold id s)
  ended : {s : State} (scope : ℕ) → Life n s → Life n (end_scope scope s)
  closed : {s : State} → Life n s → Life n (on_closed s)

offered-Held : (n : ℕ) (s : State) → New n s → Held n [] (init_free s)
unfolding init_free find_address
offered-Held n s new = record {
  laid = init_free-Laid n s new.region new.blocks new.in_use;
  held = rw new.blocks tt;
  named = λ o id e. absurd (ground (arith, e, new.addresses));
}

-- After any sequence of allocations, sends, drops, releases, ends of scopes and losses of the
-- connection, every usable byte is free or in exactly one block, the free list is sorted and
-- coalesced and makes up the region with the blocks, every block is viewed on this side or held
-- by the peer, and every known address is that of a block.
pub Life-Held : {n : ℕ} {s : State} → Life n s → Held n [] s
Life-Held {n} (offered {s} new) = offered-Held n s new
Life-Held {n} (allocated {s} {s'} bytes b ids l e) =
    (allocate-Held n bytes s b s' ids (Life-Held l) e).0
Life-Held {n} (sent {s} address bytes scope l room ids) =
    (send-Held n address bytes scope s room ids (Life-Held l)).0
Life-Held {n} (dropped {s} id l) = drop_local-Held n id s (Life-Held l)
Life-Held {n} (released {s} id l) = drop_peer_hold-Held n id s (Life-Held l)
Life-Held {n} (ended {s} scope l) = end_scope-Held n scope s (Life-Held l)
Life-Held {n} (closed {s} l) = on_closed-Held n s (Life-Held l)

whole_free :
    (m : ℕ) (fs : List Extent)
    → Spaced 0 m fs
    → ((x : ℕ) → free_cover fs x ≡ (if ltb x m then 1 else 0))
    → 0 < m
    → fs ≡ record { offset = 0; size = m } ∷ []
whole_free m [] s cells pos = absurd (ground (arith, cells 0))
whole_free m (e ∷ []) s cells pos = ground (arith, cells 0, cells (e.offset + e.size), s)
whole_free m (e ∷ g ∷ gs) s cells pos = absurd (
    ground (
      arith,
      cells (e.offset + e.size),
      s.2,
      s.3.0,
      s.3.1,
      s.3.2,
      free_cover-below (e.offset + e.size + 1) m (g ∷ gs) (e.offset + e.size) s.3 (omega arith),
    ))

-- Once the last block of a region of at least 64 bytes is gone, all the usable bytes are one
-- free entry again and none is in use.
pub Life-recovers :
    {n : ℕ} {s : State}
    → Life n s
    → s.blocks ≡ []
    → alignment ≤ n
    → (s.free ≡ record { offset = 0; size = usable n } ∷ []) × (s.in_use ≡ 0)
Life-recovers {n} {s} l gone large =
    let laid = (Life-Held l).laid in
    (
      whole_free (usable n) s.free laid.spaced (λ x. ground (arith, laid.cells x, gone))
          (omega arith),
      ground (arith, laid.used, gone),
    )

-- The two blocks share no byte.
abbrev pub Apart : Block → List Block → Type 0
Apart b [] = Unit {0}
Apart b (c ∷ cs) = ((b.offset + b.size ≤ c.offset) ⊎ (c.offset + c.size ≤ b.offset)) × Apart b cs

Apart-cover :
    (m next : ℕ) (b : Block) (cs : List Block)
    → 0 < b.size
    → BlocksOk m next cs
    → ((x : ℕ) → covers b.offset b.size x ≡ 1 → block_cover cs x ≡ 0)
    → Apart b cs
Apart-cover m next b [] pos ok free = tt
Apart-cover m next b (c ∷ cs) pos ok free = (
  ground (arith, ok.0.nonempty, free b.offset, free c.offset),
  Apart-cover m next b cs pos ok.1 (λ x e. omega (arith, free x e)),
)

-- An in-place buffer of fewer than 2^63 bytes, on a strategy whose ids have not come round,
-- starts at a multiple of 64, lies in the region, is as long as was asked for, and shares no
-- byte with any block that was there.
pub Life-allocate :
    {n : ℕ} {s s' : State} (bytes : ℕ) (b : Block)
    → HasIds s
    → Life n s
    → allocate bytes s ≡ some (b, s')
    → bytes < 2 ^ 63
    → (b.offset % alignment ≡ 0) × (b.offset + b.size ≤ n) × (bytes ≤ b.size) × Apart b s.blocks
Life-allocate {n} {s} {s'} bytes b ids l e small =
    let before = Life-Held l in
    let (held, t, made) = allocate-Held n bytes s b s' ids before e in
    (
      made.ok.aligned,
      omega (arith, made.ok.inside),
      made.large small,
      Apart-cover (usable n) s.next_block b s.blocks made.ok.nonempty before.laid.blocks
          (λ x c. ground (arith, before.laid.cells x, made.was_free x c)),
    )

-- Every block is viewed on this side, and held by no send.
abbrev pub OnlyLeased : List Block → Type 0
OnlyLeased [] = Unit {0}
OnlyLeased (b ∷ bs) = (0 < b.local_refs) × (b.peer_holds ≡ 0) × OnlyLeased bs

abbrev NoHolds : List Block → Type 0
NoHolds [] = Unit {0}
NoHolds (b ∷ bs) = (b.peer_holds ≡ 0) × NoHolds bs

NoHolds-clear : (bs : List Block) → NoHolds (clear_holds bs)
unfolding clear_holds
NoHolds-clear [] = tt
NoHolds-clear (b ∷ bs) = (refl, NoHolds-clear bs)

NoHolds-erase : (id : ℕ) (bs : List Block) → NoHolds bs → NoHolds (erase_block id bs)
unfolding erase_block
NoHolds-erase id [] h = tt
NoHolds-erase id (b ∷ bs) h = elim (Bool-cases (b.id == id)) [
  | inl found ↦ rw found h.1
  | inr other ↦ rw other (h.0, NoHolds-erase id bs h.1)
]

NoHolds-release_all :
    (ids : List ℕ) (s : State) → NoHolds s.blocks → NoHolds (release_all ids s).blocks
unfolding release_all
NoHolds-release_all [] s h = h
NoHolds-release_all (id ∷ ids) s h =
    NoHolds-release_all ids (release_if_unused id s) (elim (release_if_unused-cases id s) [
      | inl (same, busy) ↦ subst (λ t. NoHolds t.blocks) (sym same) h
      | inr (b, found, idle, eq) ↦
          subst (λ t. NoHolds t.blocks) (sym eq) (NoHolds-erase id s.blocks h)
    ])

OnlyLeased-HeldBut : (bs : List Block) → HeldBut [] bs → NoHolds bs → OnlyLeased bs
OnlyLeased-HeldBut [] h free = tt
OnlyLeased-HeldBut (b ∷ bs) h free =
    (ground (arith, h.0, free.0), free.0, OnlyLeased-HeldBut bs h.2 free.1)

-- After the connection is lost, every block that remains is viewed by a buffer on this side and
-- held by no send.
Life-closed : {n : ℕ} {s : State} → Life n s → OnlyLeased (on_closed s).blocks
unfolding on_closed
Life-closed {n} {s} l = OnlyLeased-HeldBut (on_closed s).blocks (Life-Held (closed l)).held (
    NoHolds-release_all (ids_of s.blocks) (record s { scopes = []; blocks = clear_holds s.blocks })
      (NoHolds-clear s.blocks))
