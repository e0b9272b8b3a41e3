-- ===== src/Successors/Refinement.antt =====
-- The packed lists of all nodes refine plain lists: push_back appends to one and changes no other.
use sub0pipeline.Prelude.{
  ℕ, zero, suc, ◌+◌, ◌^◌, ◌≤◌, ◌<◌, ◌≡◌, refl, sym, ap, ◌∙◌, ◌≢◌, ◌⊎◌, inl, inr, true, false, none,
  some, [], ◌∷◌, ◌++◌, arith, update, length, length-append, Bool-cases, ℕ_discrete,
}
use mathlib.Core.Path.{subst₂}
use sub0pipeline.Graph as G
use sub0pipeline.Successors.{
  Slot, Arena, count_of, is_pool, block_start, block_capacity, push_back, entry, tabulate, contents,
  pool_count_mask,
}
use sub0pipeline.Successors.Layout.{SlotOk, Placed, unpooled, fresh, stayed, Pushed}
use sub0pipeline.Successors.Spills.{push_back-Returns}

-- The blocks of two nodes do not overlap.
abbrev pub Apart : Slot → Slot → Type 0
Apart s t =
    is_pool s ≡ true
    → is_pool t ≡ true
    → (block_start s + block_capacity s ≤ block_start t)
      ⊎ (block_start t + block_capacity t ≤ block_start s)

-- The arena as the first `n` nodes share it.
pub record WellLaid (n : ℕ) (slots : ℕ → Slot) (a : Arena) : Type 0 where
  pub ok : (p : ℕ) → p < n → SlotOk (slots p) a
  pub apart : (p q : ℕ) → p < n → q < n → p ≢ q → Apart (slots p) (slots q)

tabulate_ext : (n : ℕ) (f g : ℕ → ℕ) → ((i : ℕ) → i < n → f i ≡ g i) → tabulate n f ≡ tabulate n g
unfolding tabulate
tabulate_ext zero f g h = refl
tabulate_ext (suc n) f g h = cc (tabulate_ext n f g (λ i l. h i (omega arith)), h n (omega arith))

length-tabulate : (n : ℕ) (f : ℕ → ℕ) → length (tabulate n f) ≡ n
unfolding tabulate
length-tabulate zero f = refl
length-tabulate (suc n) f =
    omega (arith, length-append (tabulate n f) (f n ∷ []), length-tabulate n f)

contents-snoc :
    (v : ℕ) (s s' : Slot) (a a' : Arena)
    → Pushed v s a s' a'
    → contents s' a' ≡ contents s a ++ v ∷ []
unfolding contents
contents-snoc v s s' a a' p =
    let count' : count_of s' ≡ suc (count_of s) = omega (arith, p.more) in
    ap (λ n. tabulate n (entry s' a')) count'
    ∙ longer (count_of s) (entry s a) (entry s' a') p.old p.last
  where
    longer :
        (n : ℕ) (f g : ℕ → ℕ)
        → ((i : ℕ) → i < n → g i ≡ f i)
        → g n ≡ v
        → tabulate (suc n) g ≡ tabulate n f ++ v ∷ []
    longer n f g old last = unfold tabulate in cc (tabulate_ext n g f old)

-- A block of another node is left as it was.
contents-same :
    (v : ℕ) (s s' t : Slot) (a a' : Arena)
    → SlotOk t a
    → Apart s t
    → Pushed v s a s' a'
    → contents t a' ≡ contents t a
unfolding contents
contents-same v s s' t a a' ok apart p =
    tabulate_ext (count_of t) (entry t a') (entry t a) (λ i l. same i l (Bool-cases (is_pool t)))
  where
    same :
        (i : ℕ)
        → i < count_of t
        → (is_pool t ≡ true) ⊎ (is_pool t ≡ false)
        → entry t a' i ≡ entry t a i
    same i l (inr unpool) = ground (arith, unpool)
    same i l (inl pool) =
        let kept =
          p.outside (block_start t + i) (omega (arith, ok.inside pool, ok.used pool))
            (λ w. ground (arith, w, apart w.0 pool, ok.used pool)) in
        ground (arith, kept, pool)

SlotOk-grows : (t : Slot) (a a' : Arena) → a.len ≤ a'.len → SlotOk t a → SlotOk t a'
SlotOk-grows t a a' h ok = record {
  word = ok.word;
  few = ok.few;
  used = ok.used;
  nonempty = ok.nonempty;
  bounded = ok.bounded;
  inside = λ e. omega (arith, ok.inside e);
}

Apart-Pushed :
    (v : ℕ) (s s' t : Slot) (a a' : Arena)
    → SlotOk s a
    → SlotOk t a
    → Apart s t
    → Pushed v s a s' a'
    → Apart s' t
Apart-Pushed v s s' t a a' ok_s ok_t apart p pool' pool = at p.placed
  where
    at :
        Placed s a s'
        → (block_start s' + block_capacity s' ≤ block_start t)
          ⊎ (block_start t + block_capacity t ≤ block_start s')
    at (unpooled e) = absurd (ground (arith, e, pool'))
    at (fresh h) = inr (omega (arith, ok_t.inside pool))
    at (stayed q e grown) =
        ground (arith, apart q pool, ok_t.inside pool, ok_t.nonempty pool, ok_s.inside q, e, grown)

Apart-sym : (s t : Slot) → Apart s t → Apart t s
Apart-sym s t h pt ps = ground (arith, h ps pt)

update_self : (f : ℕ → Slot) (p q : ℕ) (x : Slot) → p ≡ q → update f p x q ≡ x
update_self f p q x e = ground arith

update_other : (f : ℕ → Slot) (p q : ℕ) (x : Slot) → p ≢ q → update f p x q ≡ f q
update_other f p q x ne = ground arith

-- What push_back on node `p` did.
pub record Appended (n v p : ℕ) (slots : ℕ → Slot) (a : Arena) (r : Slot × Arena) : Type 0 where
  pub laid : WellLaid n (update slots p r.0) r.1
  pub longer : contents r.0 r.1 ≡ contents (slots p) a ++ v ∷ []
  pub others : (q : ℕ) → q < n → q ≢ p → contents (slots q) r.1 ≡ contents (slots q) a

-- On a well-laid arena with less than 2^32 - 8 cells push_back refines the append to a plain
-- list, throws exactly as that does, and leaves the lists of all other nodes.
pub push_back-refines :
    (n v p : ℕ) (slots : ℕ → Slot) (a : Arena)
    → WellLaid n slots a
    → p < n
    → a.len + 8 < 2 ^ 32
    → ((push_back v (slots p) a ≡ none) × (G.push_back v (contents (slots p) a) ≡ none))
      ⊎ ((r : Slot × Arena) × (push_back v (slots p) a ≡ some r)
          × (G.push_back v (contents (slots p) a) ≡ some (contents r.0 r.1))
          × Appended n v p slots a r)
push_back-refines n v p slots a laid lt room =
    elim (ℕ_discrete (count_of (slots p)) pool_count_mask) [
      | yes full ↦ inl (full_none full, plain_none full)
      | no below ↦
          let (r, e, pushed) = push_back-Returns v (slots p) a (laid.ok p lt) room below in
          let longer = contents-snoc v (slots p) r.0 a r.1 pushed in
          inr (
            r,
            e,
            plain_some r longer below,
            record {
              laid = laid' r pushed;
              longer = longer;
              others = λ q l ne.
                  contents-same v (slots p) r.0 (slots q) a r.1 (laid.ok q l)
                    (laid.apart p q lt l (λ same. ne (sym same))) pushed;
            },
          )
    ]
  where
    size_lem : length (contents (slots p) a) ≡ count_of (slots p)
    size_lem = unfold contents in length-tabulate (count_of (slots p)) (entry (slots p) a)

    full_none : count_of (slots p) ≡ pool_count_mask → push_back v (slots p) a ≡ none
    full_none full = unfold push_back in ground (arith, full, (laid.ok p lt).few)

    plain_none : count_of (slots p) ≡ pool_count_mask → G.push_back v (contents (slots p) a) ≡ none
    plain_none full = unfold G.push_back in ground (arith, full, size_lem)

    plain_some :
        (r : Slot × Arena)
        → contents r.0 r.1 ≡ contents (slots p) a ++ v ∷ []
        → count_of (slots p) ≢ pool_count_mask
        → G.push_back v (contents (slots p) a) ≡ some (contents r.0 r.1)
    plain_some r longer below = unfold G.push_back in ground (arith, below, size_lem, longer)

    moved :
        (r : Slot × Arena)
        → Pushed v (slots p) a r.0 r.1
        → (q : ℕ) → q < n
        → p ≢ q
        → Apart r.0 (slots q)
    moved r pushed q l ne =
        Apart-Pushed v (slots p) r.0 (slots q) a r.1 (laid.ok p lt) (laid.ok q l)
          (laid.apart p q lt l ne) pushed

    laid' : (r : Slot × Arena) → Pushed v (slots p) a r.0 r.1 → WellLaid n (update slots p r.0) r.1
    laid' r pushed = record {
      ok = λ q l. elim (ℕ_discrete p q) [
        | yes same ↦ ground (arith, pushed.ok)
        | no other ↦ ground (arith, SlotOk-grows (slots q) a r.1 pushed.grows (laid.ok q l))
      ];
      apart = λ q t l m ne. elim (ℕ_discrete p q) [
        | yes same ↦
            subst₂ Apart (sym (update_self slots p q r.0 same))
              (sym (update_other slots p t r.0 (λ e. ne (sym same ∙ e))))
              (moved r pushed t m (λ e. ne (sym same ∙ e)))
        | no other ↦ elim (ℕ_discrete p t) [
          | yes same ↦
              subst₂ Apart (sym (update_other slots p q r.0 other))
                (sym (update_self slots p t r.0 same))
                (Apart-sym r.0 (slots q) (moved r pushed q l other))
          | no other' ↦
              subst₂ Apart (sym (update_other slots p q r.0 other))
                (sym (update_other slots p t r.0 other')) (laid.apart q t l m ne)
        ]
      ];
    }
