-- ===== src/Region/Operations.antt =====
-- What each operation of the strategy does to a region that is laid out with every block in use.
use mathlib.Core.Path.{subst}
use sub0pipeline.Prelude.{
  ℕ, ◌+◌, ◌^◌, ◌<◌, ◌≡◌, refl, sym, ◌∙◌, ap, ◌≢◌, ◌⊎◌, inl, inr, Bool, true, false, Option, none,
  some, List, [], ◌∷◌, arith, ◌==◌, if◌then◌else◌, Option-cases, Bool-cases,
}
use sub0pipeline.Region.{
  Block, State, usable, find_block, change_block, release_if_unused, erase_address, find_address,
  less_local, less_peer, drop_local, drop_peer_hold, allocate_block,
}
use sub0pipeline.Region.Cells.{Allocated, allocate_block-Allocated, Laid-others}
use sub0pipeline.Region.Changes.{change_block-Laid}
use sub0pipeline.Region.Held.{
  Absent, Absent-old, find_address-erase, find_block-change, HeldBut-weaken,
}
use sub0pipeline.Region.Uses.{
  Held, change_block-Held, release_if_unused-Held, HeldBut-use, find_block-new,
}
use sub0pipeline.Region.Sharing.{
  lease, hold, allocate, thrown, in_region, hold_block, send, at_address, drop_all, end_scope,
  find_scope, erase_scope, push_scope, ids_of, release_all, on_closed,
}
use sub0pipeline.Region.Clearing.{clear_holds-Held}

find_block_head : (b : Block) (bs : List Block) → find_block b.id (b ∷ bs) ≡ some b
unfolding find_block
find_block_head b bs = ground arith

module _ (n : ℕ) where
  rescoped :
      (skip : List ℕ) (s : State) (scopes : List (ℕ × List ℕ))
      → Held n skip s
      → Held n skip (record s { scopes = scopes })
  rescoped skip s scopes h = record {
    laid = Laid-others n s s.by_address scopes h.laid;
    held = h.held;
    named = h.named;
  }

  pub drop_local-Held : (id : ℕ) (s : State) → Held n [] s → Held n [] (drop_local id s)
  unfolding drop_local
  drop_local-Held id s h = elim (Option-cases (find_block id s.blocks)) [
    | inl gone ↦ subst (Held n []) (ground (arith, gone)) h
    | inr (b, found) ↦ elim (Bool-cases (b.local_refs == 0)) [
      | inl idle ↦ subst (Held n []) (ground (arith, found, idle)) h
      | inr busy ↦ subst (Held n []) (ground (arith, found, busy)) (
          release_if_unused-Held n id [] _
            (change_block-Held less_local (λ c. (refl, refl, refl)) n id [] s h))
    ]
  ]

  pub drop_peer_hold-Held : (id : ℕ) (s : State) → Held n [] s → Held n [] (drop_peer_hold id s)
  unfolding drop_peer_hold
  drop_peer_hold-Held id s h = elim (Option-cases (find_block id s.blocks)) [
    | inl gone ↦ subst (Held n []) (ground (arith, gone)) h
    | inr (b, found) ↦ elim (Bool-cases (b.peer_holds == 0)) [
      | inl idle ↦ subst (Held n []) (ground (arith, found, idle)) h
      | inr busy ↦ subst (Held n []) (ground (arith, found, busy)) (
          release_if_unused-Held n id [] _
            (change_block-Held less_peer (λ c. (refl, refl, refl)) n id [] s h))
    ]
  ]

  drop_all-Held : (ids : List ℕ) (s : State) → Held n [] s → Held n [] (drop_all ids s)
  unfolding drop_all
  drop_all-Held [] s h = h
  drop_all-Held (id ∷ ids) s h =
      drop_all-Held ids (drop_peer_hold id s) (drop_peer_hold-Held id s h)

  pub end_scope-Held : (scope : ℕ) (s : State) → Held n [] s → Held n [] (end_scope scope s)
  unfolding end_scope
  end_scope-Held scope s h = elim (Option-cases (find_scope scope s.scopes)) [
    | inl gone ↦ subst (Held n []) (ground (arith, gone)) h
    | inr (ids, found) ↦ subst (Held n []) (ground (arith, found)) (
        rescoped [] (drop_all ids s) (erase_scope scope (drop_all ids s).scopes)
          (drop_all-Held ids s h))
  ]

  -- A new block may be unused until it is leased or held.
  allocate_block-Held :
      (bytes : ℕ) (s : State) (b : Block) (s' : State)
      → s.next_block + 1 < 2 ^ 64
      → Held n [] s
      → allocate_block bytes s ≡ some (b, s')
      → Held n (b.id ∷ []) s' × Allocated n bytes s b s'
  allocate_block-Held bytes s b s' ids h e =
      let made = allocate_block-Allocated n bytes s b s' ids h.laid e in
      let new =
        subst (λ i. Absent i s.blocks) (sym made.fresh)
          (Absent-old (usable n) s.next_block s.blocks h.laid.blocks) in
      (
        record {
          laid = made.laid;
          held = rw made.added (inr (ground arith), new, HeldBut-weaken b.id [] s.blocks h.held);
          named = λ o i at.
              let (c, found, place) = h.named o i (ap (find_address o) (sym made.addresses) ∙ at) in
              (c, ap (find_block i) made.added ∙ find_block-new i b s.blocks c new found, place);
        },
        made,
      )

  leased :
      (b : Block) (s' : State)
      → Held n (b.id ∷ []) s'
      → find_block b.id s'.blocks ≡ some b
      → Held n [] (record s' {
        blocks = change_block lease b.id s'.blocks;
        by_address = (b.offset, b.id) ∷ erase_address b.offset s'.by_address;
      })
  unfolding find_address
  leased b s' h found = record {
    laid =
        Laid-others n (record s' { blocks = change_block lease b.id s'.blocks }) _ s'.scopes
          (change_block-Laid lease (λ c. (refl, refl, refl)) n b.id s' h.laid);
    held = HeldBut-use lease (λ c. (refl, refl, refl)) b.id [] s'.blocks (λ c e. refl) h.held;
    named = λ o i at. by_place o i at (Bool-cases (b.offset == o));
  }
    where
      by_place :
          (o i : ℕ)
          → find_address o ((b.offset, b.id) ∷ erase_address b.offset s'.by_address) ≡ some i
          → ((b.offset == o) ≡ true) ⊎ ((b.offset == o) ≡ false)
          → (c : Block) × (find_block i (change_block lease b.id s'.blocks) ≡ some c)
            × (c.offset ≡ o)
      by_place o i at (inl same) =
          let (c, found', place) =
            find_block-change lease (λ d. (refl, refl, refl)) b.id b.id s'.blocks b found in
          (c, ground (arith, found', at, same), ground (arith, place, same))
      by_place o i at (inr other) =
          let (c, found', place) =
            h.named o i (ground (arith, find_address-erase b.offset o s'.by_address, at, other)) in
          let (d, found'', place') =
            find_block-change lease (λ a. (refl, refl, refl)) b.id i s'.blocks c found' in
          (d, found'', place' ∙ place)

  -- The block of an in-place buffer: none of its cells was in use, and it is one of the blocks.
  pub allocate-Held :
      (bytes : ℕ) (s : State) (b : Block) (s' : State)
      → s.next_block + 1 < 2 ^ 64
      → Held n [] s
      → allocate bytes s ≡ some (b, s')
      → Held n [] s' × (s'' : State) × Allocated n bytes s b s''
  unfolding allocate
  allocate-Held bytes s b s' ids h e = elim (Option-cases (allocate_block bytes s)) [
    | inl full ↦ absurd (ground (arith, e, full))
    | inr ((c, t), made) ↦
        let (held, fact) = allocate_block-Held bytes s c t ids h made in
        let here : find_block c.id t.blocks ≡ some c =
          ap (find_block c.id) fact.added ∙ find_block_head c s.blocks in
        let same : c ≡ b = ground (arith, e, made) in
        (
          subst (Held n []) (ground (arith, e, made)) (leased c t held here),
          t,
          subst (λ d. Allocated n bytes s d t) same fact,
        )
  ]

  hold_block-Held :
      (id : ℕ) (copied : Bool) (scope : ℕ) (s : State)
      → ((b : Block) → find_block id s.blocks ≡ some b → b.peer_holds + 1 < 2 ^ 32)
      → Held n (id ∷ []) s
      → (b : Block) → find_block id s.blocks ≡ some b
      → (hold_block id copied scope s).0 ≡ in_region id b.offset copied
        × Held n [] (hold_block id copied scope s).1
  unfolding hold_block
  hold_block-Held id copied scope s room h b found = (
    ground (arith, found),
    subst (Held n []) (ground (arith, found)) (
        rescoped [] held_once (if s.coordinator then push_scope scope id s.scopes else s.scopes)
          (record {
            laid = change_block-Laid hold (λ c. (refl, refl, refl)) n id s h.laid;
            held =
                HeldBut-use hold (λ c. (refl, refl, refl)) id [] s.blocks
                  (λ c e. ground (arith, room c e)) h.held;
            named = λ o i at.
                let (c, found', place) = h.named o i at in
                let (d, found'', place') =
                  find_block-change hold (λ a. (refl, refl, refl)) id i s.blocks c found' in
                (d, found'', place' ∙ place);
          })),
  )
    where
      held_once : State
      held_once = record s { blocks = change_block hold id s.blocks }

  -- What one send did: it held a block once more, or left the region to the fallback stream.
  pub send-Held :
      (address : Option ℕ) (bytes scope : ℕ) (s : State)
      → ((b : Block) (id : ℕ) → find_block id s.blocks ≡ some b → b.peer_holds + 1 < 2 ^ 32)
      → s.next_block + 1 < 2 ^ 64
      → Held n [] s
      → Held n [] (send address bytes scope s).1 × ((send address bytes scope s).0 ≢ thrown)
  unfolding send
  send-Held address bytes scope s room ids h = elim (Option-cases (at_address address s)) [
    | inr (id, known) ↦ by_id id known address refl
    | inl unknown ↦ elim (Option-cases (allocate_block bytes s)) [
      | inl full ↦
          (subst (Held n []) (ground (arith, unknown, full)) h, ground (arith, unknown, full))
      | inr ((b, t), made) ↦
          let (held, fact) = allocate_block-Held bytes s b t ids h made in
          let here : find_block b.id t.blocks ≡ some b =
            ap (find_block b.id) fact.added ∙ find_block_head b s.blocks in
          let (sent, kept) =
            hold_block-Held b.id true scope t (λ c e. ground (arith, e, here, fact.unheld)) held b
              here in
          (
            subst (Held n []) (ground (arith, unknown, made)) kept,
            ground (arith, unknown, made, sent),
          )
    ]
  ]
    where
      by_id :
          (id : ℕ)
          → at_address address s ≡ some id
          → (a : Option ℕ) → address ≡ a
          → Held n [] (send address bytes scope s).1 × ((send address bytes scope s).0 ≢ thrown)
      by_id id known none e = absurd (ground (arith, known, e))
      by_id id known (some o) e =
          let (b, found, place) = h.named o id (ground (arith, known, e)) in
          let (sent, kept) =
            hold_block-Held id false scope s (λ c f. room c id f)
              (record {
                laid = h.laid;
                held = HeldBut-weaken id [] s.blocks h.held;
                named = h.named;
              })
              b found in
          (subst (Held n []) (ground (arith, known)) kept, ground (arith, known, sent))

  release_all-Held : (ids : List ℕ) (s : State) → Held n ids s → Held n [] (release_all ids s)
  unfolding release_all
  release_all-Held [] s h = h
  release_all-Held (id ∷ ids) s h =
      release_all-Held ids (release_if_unused id s) (release_if_unused-Held n id ids s h)

  pub on_closed-Held : (s : State) → Held n [] s → Held n [] (on_closed s)
  unfolding on_closed
  on_closed-Held s h = release_all-Held (ids_of s.blocks) _ (clear_holds-Held n s h)
