-- ===== src/Region.antt =====
-- SharedMemoryStrategy::State of src/remote/shared_memory.cpp: the blocks of this side's region. A block's
-- address is its offset; `free` is the std::map as its entries in order, and the other maps are lists of
-- entries. The bytes themselves and the mutex, which every operation holds, are left out.
pub mod Extents
pub mod Puts
pub mod Alignment
pub mod Cells
pub mod Changes
pub mod Sharing
pub mod Held
pub mod Uses
pub mod Clearing
pub mod Operations
pub mod Life
pub mod References
pub mod Setup
use sub0pipeline.Prelude.{
  ℕ, zero, suc, ◌+◌, ◌-◌, ◌*◌, ◌/◌, ◌%◌, ◌^◌, Bool, true, false, ◌&&◌, ◌||◌, not, Option, none,
  some, List, [], ◌∷◌, ◌++◌, ltb, leb, ◌==◌, if◌then◌else◌,
}

-- An entry of `free`.
pub record Extent : Type 0 where
  pub offset : ℕ
  pub size : ℕ

-- State::Block, with its key.
pub record Block : Type 0 where
  pub id : ℕ
  pub offset : ℕ
  pub size : ℕ
  pub local_refs : ℕ
  pub peer_holds : ℕ

pub record State : Type 0 where
  pub region_bytes : Option ℕ  -- own->size(), if the region could be made
  pub coordinator : Bool  -- role == kCoordinator
  pub free : List Extent
  pub in_use : ℕ
  pub blocks : List Block
  pub by_address : List (ℕ × ℕ)  -- offset, id
  pub scopes : List (ℕ × List ℕ)
  pub next_block : ℕ

abbrev pub alignment : ℕ
alignment = 64

-- `own->size() - own->size() % kAlignment`
abbrev pub usable : ℕ → ℕ
usable n = n - n % alignment

-- initFree
unfoldable pub init_free : State → State
init_free s = record s {
  free = elim (s.region_bytes) [
    | none ↦ []
    | some n ↦ if leb alignment n then record { offset = 0; size = usable n } ∷ [] else []
  ];
}

-- The size that allocateBlock reserves.
unfoldable pub block_size : ℕ → ℕ
block_size bytes =
    let rounded = (bytes + (alignment - 1)) % 2 ^ 64 / alignment * alignment in
    if ltb alignment rounded then rounded else alignment

abbrev pub keep_first : Extent → Option (ℕ × List Extent) → Option (ℕ × List Extent)
keep_first e none = none
keep_first e (some (offset, es)) = some (offset, e ∷ es)

-- The loop of allocateBlock: the offset of the first fit, and what is free without it.
unfoldable pub take_fit : ℕ → List Extent → Option (ℕ × List Extent)
take_fit size [] = none
take_fit size (e ∷ es) =
    if ltb e.size size
    then keep_first e (take_fit size es)
    else some (
      e.offset,
      if e.size - size == 0
          then es
          else record { offset = e.offset + size; size = e.size - size } ∷ es,
    )

-- allocateBlock; `none` is the answer 0. The new id is no key of `blocks`, unless the ids come round.
unfoldable pub allocate_block : ℕ → State → Option (Block × State)
unfolding take_fit block_size
allocate_block bytes s = elim (s.region_bytes) [
  | none ↦ none
  | some n ↦ elim (take_fit (block_size bytes) s.free) [
    | none ↦ none
    | some (offset, free) ↦
        let block : Block = record {
          id = s.next_block;
          offset = offset;
          size = block_size bytes;
          local_refs = 0;
          peer_holds = 0;
        } in
        some (
          block,
          record s {
            free = free;
            in_use = s.in_use + block_size bytes;
            blocks = block ∷ s.blocks;
            next_block = (s.next_block + 1) % 2 ^ 64;
          },
        )
  ]
]

-- The entry after the new one, if the two touch, becomes one with it.
abbrev pub merge_next : Extent → List Extent → List Extent
merge_next e [] = e ∷ []
merge_next e (g ∷ gs) =
    if e.offset + e.size == g.offset
    then record { offset = e.offset; size = e.size + g.size } ∷ gs
    else e ∷ g ∷ gs

-- The entry before the new one, if the two touch, becomes one with it.
abbrev pub merge_previous : Extent → List Extent → List Extent
merge_previous f [] = f ∷ []
merge_previous f (e ∷ es) =
    if f.offset + f.size == e.offset
    then record { offset = f.offset; size = f.size + e.size } ∷ es
    else f ∷ e ∷ es

-- `free.emplace` after the entry `f`, and the two merges; an entry with the same offset stays as it is.
unfoldable pub put_after : Extent → Extent → List Extent → List Extent
put_after e f [] = merge_previous f (merge_next e [])
put_after e f (g ∷ gs) =
    if ltb e.offset g.offset
    then merge_previous f (merge_next e (g ∷ gs))
    else if e.offset == g.offset
    then f ∷ g ∷ gs
    else f ∷ put_after e g gs

unfoldable pub put : Extent → List Extent → List Extent
unfolding put_after
put e [] = e ∷ []
put e (f ∷ fs) =
    if ltb e.offset f.offset
    then merge_next e (f ∷ fs)
    else if e.offset == f.offset
    then f ∷ fs
    else put_after e f fs

unfoldable pub find_block : ℕ → List Block → Option Block
find_block id [] = none
find_block id (b ∷ bs) = if b.id == id then some b else find_block id bs

unfoldable pub erase_block : ℕ → List Block → List Block
erase_block id [] = []
erase_block id (b ∷ bs) = if b.id == id then bs else b ∷ erase_block id bs

-- A change of the block with that id.
unfoldable pub change_block : (Block → Block) → ℕ → List Block → List Block
change_block f id [] = []
change_block f id (b ∷ bs) = if b.id == id then f b ∷ bs else b ∷ change_block f id bs

unfoldable pub erase_address : ℕ → List (ℕ × ℕ) → List (ℕ × ℕ)
erase_address offset [] = []
erase_address offset ((o, id) ∷ rest) =
    if o == offset then erase_address offset rest else (o, id) ∷ erase_address offset rest

unfoldable pub find_address : ℕ → List (ℕ × ℕ) → Option ℕ
find_address offset [] = none
find_address offset ((o, id) ∷ rest) = if o == offset then some id else find_address offset rest

abbrev pub unused : Block → Bool
unused b = (b.local_refs == 0) && (b.peer_holds == 0)

-- releaseIfUnused
unfoldable pub release_if_unused : ℕ → State → State
unfolding find_block erase_block erase_address put
release_if_unused id s = elim (find_block id s.blocks) [
  | none ↦ s
  | some b ↦
      if unused b
      then record s {
        blocks = erase_block id s.blocks;
        by_address = erase_address b.offset s.by_address;
        in_use = s.in_use - b.size;
        free = put (record { offset = b.offset; size = b.size }) s.free;
      }
      else s
]

abbrev pub less_local : Block → Block
less_local b = record b { local_refs = b.local_refs - 1 }

abbrev pub less_peer : Block → Block
less_peer b = record b { peer_holds = b.peer_holds - 1 }

-- dropLocal
unfoldable pub drop_local : ℕ → State → State
unfolding find_block change_block release_if_unused
drop_local id s = elim (find_block id s.blocks) [
  | none ↦ s
  | some b ↦
      if b.local_refs == 0
      then s
      else release_if_unused id (record s { blocks = change_block less_local id s.blocks })
]

-- dropPeerHold
unfoldable pub drop_peer_hold : ℕ → State → State
unfolding find_block change_block release_if_unused
drop_peer_hold id s = elim (find_block id s.blocks) [
  | none ↦ s
  | some b ↦
      if b.peer_holds == 0
      then s
      else release_if_unused id (record s { blocks = change_block less_peer id s.blocks })
]
