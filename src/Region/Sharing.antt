-- ===== src/Region/Sharing.antt =====
-- What SharedMemoryStrategy of src/remote/shared_memory.cpp does with its blocks. A buffer's address is
-- its offset in this side's region, or `none` if it lies elsewhere. The copy of the bytes, the fallback
-- stream and the frames that it sends are left out.
use sub0pipeline.Prelude.{
  ℕ, ◌-◌, Bool, true, false, ◌&&◌, ◌||◌, Option, none, some, List, [], ◌∷◌, ◌++◌, ltb, ◌==◌,
  if◌then◌else◌, length, inc32,
}
use sub0pipeline.Wire.{little, join, take, drop}
use sub0pipeline.Region.{
  Block, State, allocate_block, change_block, find_block, find_address, erase_address,
  release_if_unused, drop_peer_hold,
}

abbrev pub lease : Block → Block
lease b = record b { local_refs = 1 }

abbrev pub hold : Block → Block
hold b = record b { peer_holds = inc32 b.peer_holds }

-- SharedMemoryStrategy::allocate: the block of an in-place buffer.
unfoldable pub allocate : ℕ → State → Option (Block × State)
unfolding allocate_block change_block erase_address
allocate bytes s = if bytes == 0 then none else elim (allocate_block bytes s) [
  | none ↦ none
  | some (b, s') ↦ some (
    b,
    record s' {
      blocks = change_block lease b.id s'.blocks;
      by_address = (b.offset, b.id) ∷ erase_address b.offset s'.by_address;
    },
  )
]

-- `scopes[scope].push_back(id)`
unfoldable pub push_scope : ℕ → ℕ → List (ℕ × List ℕ) → List (ℕ × List ℕ)
push_scope scope id [] = (scope, id ∷ []) ∷ []
push_scope scope id ((k, ids) ∷ rest) =
    if k == scope then (k, ids ++ id ∷ []) ∷ rest else (k, ids) ∷ push_scope scope id rest

-- What send does with the region: it streams the payload, it throws at blocks.at(), or it holds a block.
pub data Sent : Type 0 where
  streamed thrown : Sent
  in_region : (id : ℕ) (offset : ℕ) (copied : Bool) → Sent

-- send once it has the block's id.
unfoldable pub hold_block : ℕ → Bool → ℕ → State → Sent × State
unfolding find_block change_block push_scope
hold_block id copied scope s = elim (find_block id s.blocks) [
  | none ↦ (thrown, s)
  | some b ↦ (
    in_region id b.offset copied,
    record s {
      blocks = change_block hold id s.blocks;
      scopes = if s.coordinator then push_scope scope id s.scopes else s.scopes;
    },
  )
]

-- `byAddress.find(bytes.data())`
abbrev pub at_address : Option ℕ → State → Option ℕ
at_address none s = none
at_address (some o) s = find_address o s.by_address

-- SharedMemoryStrategy::send, for a payload of `bytes` bytes at `address`.
unfoldable pub send : Option ℕ → ℕ → ℕ → State → Sent × State
unfolding find_address allocate_block hold_block
send address bytes scope s = elim (at_address address s) [
  | some id ↦ hold_block id false scope s
  | none ↦ elim (allocate_block bytes s) [
    | none ↦ (streamed, s)
    | some (b, s') ↦ hold_block b.id true scope s'
  ]
]

unfoldable pub drop_all : List ℕ → State → State
unfolding drop_peer_hold
drop_all [] s = s
drop_all (id ∷ ids) s = drop_all ids (drop_peer_hold id s)

unfoldable pub find_scope : ℕ → List (ℕ × List ℕ) → Option (List ℕ)
find_scope scope [] = none
find_scope scope ((k, ids) ∷ rest) = if k == scope then some ids else find_scope scope rest

unfoldable pub erase_scope : ℕ → List (ℕ × List ℕ) → List (ℕ × List ℕ)
erase_scope scope [] = []
erase_scope scope ((k, ids) ∷ rest) = if k == scope then rest else (k, ids) ∷ erase_scope scope rest

-- SharedMemoryStrategy::endScope
unfoldable pub end_scope : ℕ → State → State
unfolding drop_all find_scope erase_scope
end_scope scope s = elim (find_scope scope s.scopes) [
  | none ↦ s
  | some ids ↦
      let dropped = drop_all ids s in record dropped { scopes = erase_scope scope dropped.scopes }
]

unfoldable pub clear_holds : List Block → List Block
clear_holds [] = []
clear_holds (b ∷ bs) = record b { peer_holds = 0 } ∷ clear_holds bs

unfoldable pub ids_of : List Block → List ℕ
ids_of [] = []
ids_of (b ∷ bs) = b.id ∷ ids_of bs

unfoldable pub release_all : List ℕ → State → State
unfolding release_if_unused
release_all [] s = s
release_all (id ∷ ids) s = release_all ids (release_if_unused id s)

-- SharedMemoryStrategy::onClosed
unfoldable pub on_closed : State → State
unfolding clear_holds ids_of release_all
on_closed s =
    release_all (ids_of s.blocks) (record s { scopes = []; blocks = clear_holds s.blocks })

-- The reference that send makes for a block, and the three numbers of one in receive.
unfoldable pub reference_of : ℕ → ℕ → ℕ → List ℕ
unfolding little
reference_of id offset size = 0 ∷ (little 8 id ++ (little 8 offset ++ little 8 size))

-- SharedMemoryStrategy::receive, for a peer's region of `peer` bytes: the block, and the offset and size
-- of the view; `none` is kJobFailed, and a reference to the fallback stream is not one of these.
unfoldable pub receive : Option ℕ → List ℕ → Option (ℕ × ℕ × ℕ)
unfolding join
receive peer [] = none
receive peer (kind ∷ rest) =
    if (kind == 0) && (length rest == 24)
    then (let id = join (take 8 rest) in
        let offset = join (take 8 (drop 8 rest)) in
        let size = join (drop 16 rest) in
        elim peer [
          | none ↦ none
          | some n ↦ if ltb n offset || ltb (n - offset) size then none else some (id, offset, size)
        ])
    else none
