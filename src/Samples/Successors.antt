-- ===== src/Samples/Successors.antt =====
-- Two nodes whose blocks share the arena; the first is full and has to move.
use sub0pipeline.Prelude.{ℕ, ◌+◌, ◌≡◌, ◌⊎◌, none, some, arith, if◌then◌else◌, ◌==◌}
use sub0pipeline.Graph as G
use sub0pipeline.Successors.{Slot, Arena, push_back, contents}
use sub0pipeline.Successors.Refinement.{WellLaid, Appended, push_back-refines}

abbrev slots : ℕ → Slot
slots p = record {
  size = if p == 0 then 32776 else 32773;
  pool_idx = if p == 0 then 0 else 8;
  inlined = λ i. if i == 0 then 8 else 0;
}

abbrev arena : Arena
arena = record { len = 16; cell = λ j. j + 100 }

slots-WellLaid : WellLaid 2 slots arena
slots-WellLaid = record {
  ok = λ p l. record {
    word = ground arith;
    few = ground arith;
    used = ground arith;
    nonempty = ground arith;
    bounded = ground arith;
    inside = ground arith;
  };
  apart = λ p q l m ne. ground arith;
}

push_back-refines_example :
    ((push_back 7 (slots 0) arena ≡ none) × (G.push_back 7 (contents (slots 0) arena) ≡ none))
    ⊎ ((r : Slot × Arena) × (push_back 7 (slots 0) arena ≡ some r)
        × (G.push_back 7 (contents (slots 0) arena) ≡ some (contents r.0 r.1))
        × Appended 2 7 0 slots arena r)
push_back-refines_example =
    push_back-refines 2 7 0 slots arena slots-WellLaid (omega arith) (omega arith)
