-- ===== src/Region/Held.antt =====
-- Every block of the region is viewed on this side or held by the peer, and in-place buffers are known by
-- their addresses.
use mathlib.Core.Path.{subst}
use sub0pipeline.Prelude.{
  ℕ, ◌<◌, ◌≡◌, refl, sym, ◌≢◌, ◌⊎◌, inl, inr, false, none, some, List, [], ◌∷◌, arith, ◌==◌,
  if◌then◌else◌, Bool-cases, count,
}
use sub0pipeline.Region.{
  Block, State, find_block, erase_block, change_block, unused, erase_address, find_address,
}
use sub0pipeline.Region.Cells.{BlocksOk}

-- No block has the id.
abbrev pub Absent : ℕ → List Block → Type 0
Absent id [] = Unit {0}
Absent id (b ∷ bs) = (b.id ≢ id) × Absent id bs

-- The blocks have distinct ids, and each but those with an id in `skip` is in use.
abbrev pub HeldBut : List ℕ → List Block → Type 0
HeldBut skip [] = Unit {0}
HeldBut skip (b ∷ bs) =
    ((unused b ≡ false) ⊎ (0 < count b.id skip)) × Absent b.id bs × HeldBut skip bs

-- A known address is that of a block.
abbrev pub Named : State → Type 0
Named s =
    (o id : ℕ)
    → find_address o s.by_address ≡ some id
    → (b : Block) × (find_block id s.blocks ≡ some b) × (b.offset ≡ o)

pub Absent-find : (id : ℕ) (bs : List Block) → Absent id bs → find_block id bs ≡ none
unfolding find_block
Absent-find id [] a = refl
Absent-find id (b ∷ bs) a = ground (arith, a.0, Absent-find id bs a.1)

pub Absent-change :
    (f : Block → Block)
    → ((b : Block) → ((f b).offset ≡ b.offset) × ((f b).size ≡ b.size) × ((f b).id ≡ b.id))
    → (id : ℕ) (bs : List Block) (i : ℕ) → Absent i bs
    → Absent i (change_block f id bs)
unfolding change_block
Absent-change f same id [] i a = tt
Absent-change f same id (b ∷ bs) i a = elim (Bool-cases (b.id == id)) [
  | inl found ↦ rw found (ground (arith, same b, a.0), a.1)
  | inr other ↦ rw other (a.0, Absent-change f same id bs i a.1)
]

Absent-erase : (id : ℕ) (bs : List Block) (i : ℕ) → Absent i bs → Absent i (erase_block id bs)
unfolding erase_block
Absent-erase id [] i a = tt
Absent-erase id (b ∷ bs) i a = elim (Bool-cases (b.id == id)) [
  | inl found ↦ rw found a.1
  | inr other ↦ rw other (a.0, Absent-erase id bs i a.1)
]

pub Absent-old : (n next : ℕ) (bs : List Block) → BlocksOk n next bs → Absent next bs
Absent-old n next [] ok = tt
Absent-old n next (b ∷ bs) ok = (omega (arith, ok.0.old), Absent-old n next bs ok.1)

pub HeldBut-weaken :
    (id : ℕ) (skip : List ℕ) (bs : List Block) → HeldBut skip bs → HeldBut (id ∷ skip) bs
HeldBut-weaken id skip [] h = tt
HeldBut-weaken id skip (b ∷ bs) h = (ground (arith, h.0), h.1, HeldBut-weaken id skip bs h.2)

pub HeldBut-change :
    (f : Block → Block)
    → ((b : Block) → ((f b).offset ≡ b.offset) × ((f b).size ≡ b.size) × ((f b).id ≡ b.id))
    → (id : ℕ) (skip : List ℕ) (bs : List Block) → HeldBut skip bs
    → HeldBut (id ∷ skip) (change_block f id bs)
unfolding change_block
HeldBut-change f same id skip [] h = tt
HeldBut-change f same id skip (b ∷ bs) h = elim (Bool-cases (b.id == id)) [
  | inl found ↦ rw found (
    inr (ground (arith, same b, found)),
    subst (λ i. Absent i bs) (sym (same b).2) h.1,
    HeldBut-weaken id skip bs h.2,
  )
  | inr other ↦ rw other (
    ground (arith, h.0),
    Absent-change f same id bs b.id h.1,
    HeldBut-change f same id skip bs h.2,
  )
]

pub HeldBut-Absent :
    (id : ℕ) (skip : List ℕ) (bs : List Block)
    → Absent id bs
    → HeldBut (id ∷ skip) bs
    → HeldBut skip bs
HeldBut-Absent id skip [] a h = tt
HeldBut-Absent id skip (b ∷ bs) a h =
    (ground (arith, h.0, a.0), h.1, HeldBut-Absent id skip bs a.1 h.2)

pub HeldBut-busy :
    (id : ℕ) (skip : List ℕ) (bs : List Block)
    → ((b : Block) → find_block id bs ≡ some b → unused b ≡ false)
    → HeldBut (id ∷ skip) bs
    → HeldBut skip bs
unfolding find_block
HeldBut-busy id skip [] busy h = tt
HeldBut-busy id skip (b ∷ bs) busy h = elim (Bool-cases (b.id == id)) [
  | inl found ↦ (
    inl (busy b (rw found)),
    h.1,
    HeldBut-Absent id skip bs (subst (λ i. Absent i bs) (ground (arith, found)) h.1) h.2,
  )
  | inr other ↦
      (ground (arith, h.0, other), h.1, HeldBut-busy id skip bs (λ c e. busy c (rw other e)) h.2)
]

-- Without the block that may be unused, or if it is in use, all are.
pub HeldBut-erase :
    (id : ℕ) (skip : List ℕ) (bs : List Block)
    → HeldBut (id ∷ skip) bs
    → HeldBut skip (erase_block id bs)
unfolding erase_block
HeldBut-erase id skip [] h = tt
HeldBut-erase id skip (b ∷ bs) h = elim (Bool-cases (b.id == id)) [
  | inl found ↦
      rw found
        (HeldBut-Absent id skip bs (subst (λ i. Absent i bs) (ground (arith, found)) h.1) h.2)
  | inr other ↦
      rw other
        (ground (arith, h.0, other), Absent-erase id bs b.id h.1, HeldBut-erase id skip bs h.2)
]

pub find_block-change :
    (f : Block → Block)
    → ((b : Block) → ((f b).offset ≡ b.offset) × ((f b).size ≡ b.size) × ((f b).id ≡ b.id))
    → (id i : ℕ) (bs : List Block) (b : Block) → find_block i bs ≡ some b
    → (c : Block) × (find_block i (change_block f id bs) ≡ some c) × (c.offset ≡ b.offset)
unfolding find_block change_block
find_block-change f same id i [] b h = absurd (ground (arith, h))
find_block-change f same id i (a ∷ bs) b h = elim (Bool-cases (a.id == id)) [
  | inl here ↦ elim (Bool-cases (a.id == i)) [
    | inl found ↦ (f a, ground (arith, here, found, same a), ground (arith, h, found, same a))
    | inr other ↦ (b, ground (arith, h, here, other, same a), refl)
  ]
  | inr there ↦ elim (Bool-cases (a.id == i)) [
    | inl found ↦ (a, ground (arith, there, found), ground (arith, h, found))
    | inr other ↦
        let (c, e, o) = find_block-change f same id i bs b (ground (arith, h, other)) in
        (c, ground (arith, there, other, e), o)
  ]
]

pub find_block-erase :
    (id i : ℕ) (bs : List Block) → i ≢ id → find_block i (erase_block id bs) ≡ find_block i bs
unfolding find_block erase_block
find_block-erase id i [] ne = refl
find_block-erase id i (a ∷ bs) ne = ground (arith, ne, find_block-erase id i bs ne)

pub find_address-erase :
    (o p : ℕ) (l : List (ℕ × ℕ))
    → find_address p (erase_address o l) ≡ (if o == p then none else find_address p l)
unfolding find_address erase_address
find_address-erase o p [] = ground arith
find_address-erase o p ((q, id) ∷ l) = ground (arith, find_address-erase o p l)
