-- ===== src/Region/Uses.antt =====
-- The blocks stay in use under the changes that the operations of the strategy make.
use mathlib.Core.Path.{subst}
use sub0pipeline.Prelude.{
  ℕ, ◌≡◌, sym, ◌∙◌, ◌≢◌, inl, inr, false, some, List, [], ◌∷◌, arith, ◌==◌, Bool-cases,
}
use sub0pipeline.Region.{Block, State, find_block, change_block, release_if_unused, unused}
use sub0pipeline.Region.Sharing.{clear_holds, ids_of}
use sub0pipeline.Region.Cells.{Laid}
use sub0pipeline.Region.Changes.{
  without, release_if_unused-cases, release_if_unused-Laid, change_block-Laid,
}
use sub0pipeline.Region.Held.{
  Absent, HeldBut, Named, Absent-find, Absent-change, HeldBut-weaken, HeldBut-change,
  HeldBut-Absent, HeldBut-busy, HeldBut-erase, find_block-change, find_block-erase,
  find_address-erase,
}

-- What holds of the region between two operations: the blocks with an id in `skip` may be unused.
pub record Held (n : ℕ) (skip : List ℕ) (s : State) : Type 0 where
  pub laid : Laid n s
  pub held : HeldBut skip s.blocks
  pub named : Named s

pub change_block-Held :
    (f : Block → Block)
    → ((b : Block) → ((f b).offset ≡ b.offset) × ((f b).size ≡ b.size) × ((f b).id ≡ b.id))
    → (n id : ℕ) (skip : List ℕ) (s : State) → Held n skip s
    → Held n (id ∷ skip) (record s { blocks = change_block f id s.blocks })
change_block-Held f same n id skip s h = record {
  laid = change_block-Laid f same n id s h.laid;
  held = HeldBut-change f same id skip s.blocks h.held;
  named = λ o i e.
      let (b, found, at) = h.named o i e in
      let (c, found', at') = find_block-change f same id i s.blocks b found in
      (c, found', at' ∙ at);
}

without-Named :
    (id : ℕ) (b : Block) (s : State)
    → find_block id s.blocks ≡ some b
    → Named s
    → Named (without id b s)
without-Named id b s found named o i e = elim (Bool-cases (b.offset == o)) [
  | inl same ↦ absurd (ground (arith, find_address-erase b.offset o s.by_address, same, e))
  | inr other ↦
      let (c, found', at) =
        named o i (ground (arith, find_address-erase b.offset o s.by_address, other, e)) in
      let ne : i ≢ id = λ same. ground (arith, other, at, found, found', same) in
      (c, find_block-erase id i s.blocks ne ∙ found', at)
]

-- releaseIfUnused settles the block that may be unused.
pub release_if_unused-Held :
    (n id : ℕ) (skip : List ℕ) (s : State)
    → Held n (id ∷ skip) s
    → Held n skip (release_if_unused id s)
release_if_unused-Held n id skip s h = elim (release_if_unused-cases id s) [
  | inl (same, busy) ↦
      subst (Held n skip) (sym same) (record {
        laid = h.laid;
        held = HeldBut-busy id skip s.blocks busy h.held;
        named = h.named;
      })
  | inr (b, found, idle, eq) ↦ subst (Held n skip) (sym eq) (record {
    laid = subst (Laid n) eq (release_if_unused-Laid n id s h.laid);
    held = HeldBut-erase id skip s.blocks h.held;
    named = without-Named id b s found h.named;
  })
]

-- A block that a change puts in use is in use.
pub HeldBut-use :
    (f : Block → Block)
    → ((b : Block) → ((f b).offset ≡ b.offset) × ((f b).size ≡ b.size) × ((f b).id ≡ b.id))
    → (id : ℕ) (skip : List ℕ) (bs : List Block)
    → ((b : Block) → find_block id bs ≡ some b → unused (f b) ≡ false)
    → HeldBut (id ∷ skip) bs
    → HeldBut skip (change_block f id bs)
unfolding find_block change_block
HeldBut-use f same id skip [] used h = tt
HeldBut-use f same id skip (b ∷ bs) used h = elim (Bool-cases (b.id == id)) [
  | inl found ↦ rw found (
    inl (used b (rw found)),
    subst (λ i. Absent i bs) (sym (same b).2) h.1,
    HeldBut-Absent id skip bs (subst (λ i. Absent i bs) (ground (arith, found)) h.1) h.2,
  )
  | inr other ↦ rw other (
    ground (arith, h.0, other),
    Absent-change f same id bs b.id h.1,
    HeldBut-use f same id skip bs (λ c e. used c (ground (arith, e, other))) h.2,
  )
]

Absent-clear : (i : ℕ) (bs : List Block) → Absent i bs → Absent i (clear_holds bs)
unfolding clear_holds
Absent-clear i [] a = tt
Absent-clear i (b ∷ bs) a = (a.0, Absent-clear i bs a.1)

-- Without the peer's holds, any block may be unused.
pub HeldBut-clear : (bs : List Block) → HeldBut [] bs → HeldBut (ids_of bs) (clear_holds bs)
unfolding clear_holds ids_of
HeldBut-clear [] h = tt
HeldBut-clear (b ∷ bs) h = (
  inr (ground arith),
  Absent-clear b.id bs h.1,
  HeldBut-weaken b.id (ids_of bs) (clear_holds bs) (HeldBut-clear bs h.2),
)

pub find_block-new :
    (i : ℕ) (b : Block) (bs : List Block) (c : Block)
    → Absent b.id bs
    → find_block i bs ≡ some c
    → find_block i (b ∷ bs) ≡ some c
unfolding find_block
find_block-new i b bs c a h = elim (Bool-cases (b.id == i)) [
  | inl same ↦ absurd (ground (arith, same, h, Absent-find b.id bs a))
  | inr other ↦ rw other h
]
