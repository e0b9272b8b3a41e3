-- ===== src/Successors/Pushes.antt =====
-- push_back appends one entry and leaves every other block alone.
use sub0pipeline.Prelude.{
  ℕ, ◌+◌, ◌/◌, ◌%◌, ◌≤◌, ◌<◌, ◌≡◌, refl, ap, ◌∙◌, ◌≢◌, inl, inr, true, Option, some, arith, ◌==◌,
  update, Bool-cases, ==_iff,
}
use sub0pipeline.Successors.{
  Slot, Arena, count_of, is_pool, block_start, block_capacity, grow, store, push_pool,
  pool_count_mask,
}
use sub0pipeline.Successors.Layout.{
  HasRoom, SlotOk, Within, Placed, unpooled, fresh, stayed, Pushed, Grown, grow_in_place, grow_move,
}

Grown-refl :
    (s : Slot) (a : Arena)
    → SlotOk s a
    → is_pool s ≡ true
    → count_of s < block_capacity s
    → Grown s a s a
Grown-refl s a ok pooled space = record {
  ok = ok;
  same_size = refl;
  space = space;
  old = λ i l. refl;
  grows = omega arith;
  outside = λ j l. refl;
  placed = stayed pooled refl (inl refl);
}

grow-Grown :
    (s : Slot) (a : Arena)
    → SlotOk s a
    → HasRoom a
    → is_pool s ≡ true
    → count_of s ≡ block_capacity s
    → count_of s ≢ pool_count_mask
    → Grown s a (grow s a).0 (grow s a).1
unfolding grow
grow-Grown s a ok room pooled full below =
    elim (Bool-cases (block_start s + block_capacity s == a.len)) [
      | inl last ↦ rw last (grow_in_place s a ok room pooled full below ((==_iff _ a.len).0 last))
      | inr other ↦ rw other (grow_move s a ok room pooled full below)
    ]

-- The write of the new entry.
store-Pushed :
    (v : ℕ) (s s' : Slot) (a a' : Arena)
    → is_pool s ≡ true
    → count_of s ≢ pool_count_mask
    → SlotOk s a
    → Grown s a s' a'
    → Pushed v s a (store v (s', a')).0 (store v (s', a')).1
unfolding store
store-Pushed v s s' a a' pooled below ok g =
    let pooled' = ap (λ z. z / 32768 % 2 == 1) g.same_size ∙ pooled in
    let count' = ap (λ (z : ℕ). z % 32768) g.same_size in
    let space = g.space in
    let most = g.ok.bounded pooled' in
    let ends = g.ok.inside pooled' in
    record {
      ok = record {
        word = omega arith;
        few = λ e. ground arith;
        used = λ _. ground arith;
        nonempty = λ _. ground arith;
        bounded = λ _. ground arith;
        inside = λ _. ground arith;
      };
      more = ground arith;
      old = λ i l. ground (arith, g.old i l, count', pooled, most);
      last = ground (arith, count', most);
      grows = g.grows;
      outside = λ j l out. apart j l out g.placed ∙ g.outside j l;
      placed = again g.placed;
    }
  where
    n : ℕ
    n = count_of s

    capacity_le : SlotOk s a → is_pool s ≡ true → n ≤ block_capacity s
    capacity_le o p = o.used p

    apart :
        (j : ℕ)
        → j < a.len
        → ¬ Within s j
        → Placed s a s'
        → update a'.cell (block_start s' + count_of s') v j ≡ a'.cell j
    apart j l out (unpooled e) = ground (arith, e, ap (λ z. z / 32768 % 2 == 1) g.same_size, pooled)
    apart j l out (fresh h) = ground (arith, h)
    apart j l out (stayed p e grown) =
        ground (arith, e, grown, out, pooled, g.space, g.same_size, capacity_le ok pooled)

    again : Placed s a s' → Placed s a (store v (s', a')).0
    again (unpooled e) =
        absurd (ground (arith, e, ap (λ z. z / 32768 % 2 == 1) g.same_size, pooled))
    again (fresh h) = fresh h
    again (stayed p e grown) = stayed p e grown

-- The call returns, with one more entry.
abbrev pub Returns : ℕ → Slot → Arena → Option (Slot × Arena) → Type 0
Returns v s a o = (r : Slot × Arena) × (o ≡ some r) × Pushed v s a r.0 r.1

pub push_pool-Returns :
    (v : ℕ) (s : Slot) (a : Arena)
    → SlotOk s a
    → HasRoom a
    → is_pool s ≡ true
    → count_of s ≢ pool_count_mask
    → Returns v s a (push_pool v s a)
unfolding push_pool
push_pool-Returns v s a ok room pooled below = elim (Bool-cases (count_of s == block_capacity s)) [
  | inl full ↦
      let full' = (==_iff _ (block_capacity s)).0 full in
      let g = grow-Grown s a ok room pooled full' below in
      (
        store v (grow s a),
        ground (arith, full, below),
        store-Pushed v s (grow s a).0 a (grow s a).1 pooled below ok g,
      )
  | inr free ↦ (
    store v (s, a),
    ground (arith, free, below),
    store-Pushed v s s a a pooled below ok
        (Grown-refl s a ok pooled (ground (arith, free, ok.used pooled))),
  )
]
