-- ===== src/Successors/Spills.antt =====
-- A push onto the inline entries, and any push: push_back appends one entry and leaves every other block alone.
use sub0pipeline.Prelude.{
  ℕ, ◌+◌, ◌-◌, ◌*◌, ◌%◌, ◌^◌, ◌<◌, ◌≡◌, refl, sym, ap, ◌∙◌, ◌≢◌, inl, inr, true, false, ◌&&◌, arith,
  ltb, leb, if◌then◌else◌, update, Bool-cases,
}
use sub0pipeline.Successors.{
  Slot, Arena, count_of, is_pool, block_start, resize, copy_inline, spill, push_back, entry,
  inline_cap, pool_count_mask,
}
use sub0pipeline.Successors.Copies.{copy_inline_lem}
use sub0pipeline.Successors.Layout.{
  HasRoom, SlotOk, Placed, unpooled, fresh, stayed, Pushed, set_block-start,
}
use sub0pipeline.Successors.Pushes.{Returns, push_pool-Returns}

-- The inline entries become the head of a new block of eight.
record Spilled (s : Slot) (a : Arena) (s' : Slot) (a' : Arena) : Type 0 where
  ok : SlotOk s' a'
  pooled : is_pool s' ≡ true
  same : count_of s' ≡ 4
  start : block_start s' ≡ a.len
  old : (i : ℕ) → i < 4 → a'.cell (a.len + i) ≡ s.inlined i
  size : a'.len ≡ a.len + 8
  outside : (j : ℕ) → j < a.len → a'.cell j ≡ a.cell j

spill-Spilled :
    (s : Slot) (a : Arena) → HasRoom a → count_of s ≡ 4 → Spilled s a (spill s a).0 (spill s a).1
unfolding spill
spill-Spilled s a room four =
    let (start', cap', size') = set_block-start a.len (2 * inline_cap) s (omega arith) in
    record {
      ok = record {
        word = omega arith;
        few = λ e. ground (arith, four);
        used = λ _. ground (arith, cap', four);
        nonempty = λ _. ground (arith, cap');
        bounded = λ _. ground (arith, cap');
        inside = λ _. ground (arith, cap', start');
      };
      pooled = ground (arith, four);
      same = ground (arith, four);
      start = start';
      old = λ i l. copied (a.len + i) ∙ from_inline i l;
      size = omega arith;
      outside = λ j l. copied j ∙ ground arith;
    }
  where
    bigger : ℕ → ℕ
    bigger = (resize (a.len + 2 * inline_cap) a).cell

    copied :
        (j : ℕ)
        → copy_inline (count_of s) s.inlined a.len bigger j
          ≡ (if leb a.len j && ltb j (a.len + count_of s) then s.inlined (j - a.len) else bigger j)
    copied j = copy_inline_lem (count_of s) s.inlined a.len bigger j

    from_inline :
        (i : ℕ)
        → i < 4
        → (if leb a.len (a.len + i) && ltb (a.len + i) (a.len + count_of s)
            then s.inlined (a.len + i - a.len)
            else bigger (a.len + i))
          ≡ s.inlined i
    from_inline i l =
        let back : a.len + i - a.len ≡ i = omega arith in ground (arith, ap s.inlined back, four)

-- A call that moves the entries out of the node, as one push.
Spilled-Pushed :
    (v : ℕ) (s s1 s2 : Slot) (a a1 a2 : Arena)
    → is_pool s ≡ false
    → count_of s ≡ 4
    → Spilled s a s1 a1
    → Pushed v s1 a1 s2 a2
    → Pushed v s a s2 a2
Spilled-Pushed v s s1 s2 a a1 a2 unpool four sp p = record {
  ok = p.ok;
  more = omega (arith, p.more, sp.same);
  old = λ i l.
      p.old i (omega (arith, sp.same))
      ∙ pooled_entry i
      ∙ sp.old i (omega arith)
      ∙ ground (arith, unpool);
  last = ap (entry s2 a2) (four ∙ sym sp.same) ∙ p.last;
  grows = omega (arith, p.grows, sp.size);
  outside = λ j l out.
      p.outside j (omega (arith, sp.size)) (λ w. absurd (omega (arith, w, sp.start)))
      ∙ sp.outside j l;
  placed = again p.placed;
}
  where
    pooled_entry : (i : ℕ) → entry s1 a1 i ≡ a1.cell (a.len + i)
    pooled_entry i = ground (arith, sp.pooled, ap (λ st. a1.cell (st + i)) sp.start)

    again : Placed s1 a1 s2 → Placed s a s2
    again (unpooled e) = unpooled e
    again (fresh h) = fresh (omega (arith, sp.size))
    again (stayed q e grown) = fresh (omega (arith, sp.start, e))

-- push_back returns unless the list holds 32767 entries: it appends `v`, keeps the other entries in
-- order, and writes no cell of another block.
pub push_back-Returns :
    (v : ℕ) (s : Slot) (a : Arena)
    → SlotOk s a
    → a.len + 8 < 2 ^ 32
    → count_of s ≢ pool_count_mask
    → Returns v s a (push_back v s a)
unfolding push_back
push_back-Returns v s a ok room below = elim (Bool-cases (is_pool s)) [
  | inl pooled ↦
      let (r, e, p) = push_pool-Returns v s a ok (omega arith) pooled below in
      (r, ground (arith, pooled, e), p)
  | inr unpool ↦ elim (Bool-cases (ltb (count_of s) inline_cap)) [
    | inl few ↦ (
      (record s { size = (count_of s + 1) % 65536; inlined = update s.inlined (count_of s) v }, a),
      ground (arith, unpool, few),
      inlined_push unpool few,
    )
    | inr full ↦
        let sp = spill-Spilled s a (omega arith) (four unpool full) in
        let (r, e, p) =
          push_pool-Returns v (spill s a).0 (spill s a).1 sp.ok (omega (arith, sp.size)) sp.pooled
            (λ m. absurd (omega (arith, sp.same))) in
        (
          r,
          ground (arith, unpool, full, e),
          Spilled-Pushed v s (spill s a).0 r.0 a (spill s a).1 r.1 unpool (four unpool full) sp p,
        )
  ]
]
  where
    four : is_pool s ≡ false → ltb (count_of s) inline_cap ≡ false → count_of s ≡ 4
    four unpool full = ground (arith, ok.few unpool)

    inlined_push :
        is_pool s ≡ false
        → ltb (count_of s) inline_cap ≡ true
        → Pushed v s a
            (record s {
              size = (count_of s + 1) % 65536;
              inlined = update s.inlined (count_of s) v;
            })
            a
    inlined_push unpool few =
        let word = ok.word in
        record {
          ok = record {
            word = ground arith;
            few = λ e. ground arith;
            used = λ e. ground arith;
            nonempty = λ e. ground arith;
            bounded = λ e. ground arith;
            inside = λ e. ground arith;
          };
          more = ground arith;
          old = λ i l. ground arith;
          last = ground arith;
          grows = omega arith;
          outside = λ j l out. refl;
          placed = unpooled (ground arith);
        }
