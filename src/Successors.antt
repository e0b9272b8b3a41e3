-- ===== src/Successors.antt =====
-- PoolSuccessors of src/sub0pipeline.cpp: twelve bytes that hold up to four successor indices, or the
-- place of a block in the arena Impl::succPool_ that all nodes share. Each uint16_t store is `% 65536`.
pub mod Copies
pub mod Layout
pub mod Pushes
pub mod Spills
pub mod Refinement
use sub0pipeline.Prelude.{
  ℕ, zero, suc, ◌+◌, ◌-◌, ◌*◌, ◌/◌, ◌%◌, Bool, true, false, Option, none, some, List, [], ◌∷◌, ◌++◌,
  ltb, leb, ◌==◌, if◌then◌else◌, update,
}

pub record Slot : Type 0 where
  pub size : ℕ  -- size_: bit 15 is the pool flag, the rest the count
  pub pool_idx : ℕ
  pub inlined : ℕ → ℕ  -- inline_

-- A std::vector<uint16_t>: a cell is only read below `len`.
pub record Arena : Type 0 where
  pub len : ℕ
  pub cell : ℕ → ℕ

abbrev pub inline_cap : ℕ
inline_cap = 4

abbrev pub pool_flag : ℕ
pool_flag = 32768

abbrev pub pool_count_mask : ℕ
pool_count_mask = 32767

abbrev pub empty_slot : Slot
empty_slot = record { size = 0; pool_idx = 0; inlined = λ _. 0 }

-- size_ & kCountMask
abbrev pub count_of : Slot → ℕ
count_of s = s.size % 32768

-- (size_ & kPoolFlag) != 0
abbrev pub is_pool : Slot → Bool
is_pool s = s.size / 32768 % 2 == 1

abbrev pub block_start : Slot → ℕ
block_start s = s.pool_idx + s.inlined 1 * 65536

abbrev pub block_capacity : Slot → ℕ
block_capacity s = s.inlined 0

-- std::vector::resize to at least the present size.
abbrev pub resize : ℕ → Arena → Arena
resize m a = record { len = m; cell = λ j. if ltb j a.len then a.cell j else 0 }

pub set_block : ℕ → ℕ → Slot → Slot
set_block start capacity s = record s {
  pool_idx = start % 65536;
  inlined = update (update s.inlined 1 (start / 65536 % 65536)) 0 capacity;
}

-- `for (i = 0; i < n; ++i) pool[start + i] = inline_[i];`
pub copy_inline : ℕ → (ℕ → ℕ) → ℕ → (ℕ → ℕ) → ℕ → ℕ
copy_inline zero src start cell = cell
copy_inline (suc k) src start cell = update (copy_inline k src start cell) (start + k) (src k)

-- `for (i = 0; i < n; ++i) pool[moved + i] = pool[start + i];`
pub copy_block : ℕ → ℕ → ℕ → (ℕ → ℕ) → ℕ → ℕ
copy_block zero start moved cell = cell
copy_block (suc k) start moved cell =
    let done = copy_block k start moved cell in update done (moved + k) (done (start + k))

-- The move of a full inline list to a new block at the end of the arena.
pub spill : Slot → Arena → Slot × Arena
unfolding set_block copy_inline
spill s a =
    let n = count_of s in
    let grown = resize (a.len + 2 * inline_cap) a in
    (
      record (set_block a.len (2 * inline_cap) s) { size = pool_flag + n },
      record grown { cell = copy_inline n s.inlined a.len grown.cell },
    )

-- A full block doubles: in place if it is the last, and else by a move to the end.
pub grow : Slot → Arena → Slot × Arena
unfolding set_block copy_block
grow s a =
    let n = count_of s in
    let start = block_start s in
    let capacity = block_capacity s in
    let grown = if ltb (pool_count_mask / 2) capacity then pool_count_mask else capacity * 2 in
    if start + capacity == a.len
    then (set_block start grown s, resize (start + grown) a)
    else (let bigger = resize (a.len + grown) a in
        (set_block a.len grown s, record bigger { cell = copy_block n start a.len bigger.cell }))

-- The last two lines of push_back.
pub store : ℕ → Slot × Arena → Slot × Arena
store v (s, a) =
    let n = count_of s in
    (
      record s { size = pool_flag + (n + 1) },
      record a { cell = update a.cell (block_start s + n) v },
    )

-- push_back from the test for a full count on; `none` is the exception.
pub push_pool : ℕ → Slot → Arena → Option (Slot × Arena)
unfolding grow store
push_pool v s a =
    if count_of s == pool_count_mask
    then none
    else some (store v (if count_of s == block_capacity s then grow s a else (s, a)))

-- PoolSuccessors::push_back
pub push_back : ℕ → Slot → Arena → Option (Slot × Arena)
unfolding spill push_pool
push_back v s a =
    if is_pool s
    then push_pool v s a
    else if ltb (count_of s) inline_cap
    then some
        (record s { size = (count_of s + 1) % 65536; inlined = update s.inlined (count_of s) v }, a)
    else (let spilled = spill s a in push_pool v spilled.0 spilled.1)

-- begin(pool)[i]
abbrev pub entry : Slot → Arena → ℕ → ℕ
entry s a i = if is_pool s then a.cell (block_start s + i) else s.inlined i

-- The first `n` values of `f`.
pub tabulate : ℕ → (ℕ → ℕ) → List ℕ
tabulate zero f = []
tabulate (suc n) f = tabulate n f ++ f n ∷ []

-- The list that range(pool) walks.
pub contents : Slot → Arena → List ℕ
unfolding tabulate
contents s a = tabulate (count_of s) (entry s a)
