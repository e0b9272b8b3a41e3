-- ===== src/Region/Clearing.antt =====
-- Clearing the peer's holds of all blocks, when the connection is lost, keeps the region laid out.
use sub0pipeline.Prelude.{ℕ, ◌≡◌, refl, some, List, [], ◌∷◌, arith}
use sub0pipeline.Region.{Block, State, usable, find_block}
use sub0pipeline.Region.Cells.{block_cover, block_total, BlocksOk}
use sub0pipeline.Region.Uses.{Held, HeldBut-clear}
use sub0pipeline.Region.Sharing.{clear_holds, ids_of}

clear_holds-cover : (bs : List Block) (x : ℕ) → block_cover (clear_holds bs) x ≡ block_cover bs x
unfolding clear_holds
clear_holds-cover [] x = refl
clear_holds-cover (b ∷ bs) x = omega (arith, clear_holds-cover bs x)

clear_holds-total : (bs : List Block) → block_total (clear_holds bs) ≡ block_total bs
unfolding clear_holds
clear_holds-total [] = refl
clear_holds-total (b ∷ bs) = omega (arith, clear_holds-total bs)

clear_holds-BlocksOk :
    (m next : ℕ) (bs : List Block) → BlocksOk m next bs → BlocksOk m next (clear_holds bs)
unfolding clear_holds
clear_holds-BlocksOk m next [] ok = tt
clear_holds-BlocksOk m next (b ∷ bs) ok = (
  record {
    nonempty = ok.0.nonempty;
    inside = ok.0.inside;
    aligned = ok.0.aligned;
    whole = ok.0.whole;
    old = ok.0.old;
  },
  clear_holds-BlocksOk m next bs ok.1,
)

find_block-clear :
    (i : ℕ) (bs : List Block) (b : Block)
    → find_block i bs ≡ some b
    → find_block i (clear_holds bs) ≡ some (record b { peer_holds = 0 })
unfolding find_block clear_holds
find_block-clear i [] b h = ground (arith, h)
find_block-clear i (a ∷ bs) b h = ground (arith, h, find_block-clear i bs b)

pub clear_holds-Held :
    (n : ℕ) (s : State)
    → Held n [] s
    → Held n (ids_of s.blocks) (record s { scopes = []; blocks = clear_holds s.blocks })
clear_holds-Held n s h = record {
  laid = record {
    region = h.laid.region;
    spaced = h.laid.spaced;
    aligned = h.laid.aligned;
    blocks = clear_holds-BlocksOk (usable n) s.next_block s.blocks h.laid.blocks;
    cells = λ x. omega (arith, h.laid.cells x, clear_holds-cover s.blocks x);
    used = omega (arith, h.laid.used, clear_holds-total s.blocks);
    total = h.laid.total;
  };
  held = HeldBut-clear s.blocks h.held;
  named = λ o i at.
      let (b, found, place) = h.named o i at in
      (record b { peer_holds = 0 }, find_block-clear i s.blocks b found, place);
}
