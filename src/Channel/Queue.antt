-- ===== src/Channel/Queue.antt =====
-- How the parts of a channel's state change: its pending requests, its queue and its answers, counted by ticket.
use sub0pipeline.Prelude.{
  ℕ, ◌+◌, ◌^◌, ◌≤◌, ◌<◌, ◌≡◌, refl, sym, ◌⊎◌, inl, inr, Bool, true, false, ◌&&◌, Option, none, some,
  List, [], ◌∷◌, ◌++◌, arith, ltb, leb, ◌==◌, if◌then◌else◌, length, Bool-cases, List-cases,
}
use sub0pipeline.Types.{PipelineError}
use sub0pipeline.Channel.{
  Channel, Submission, Answer, Sent, refused, waiting, registered, is_connected, find_pending,
  emplace_pending, erase_pending, send, take_queued, no_strategy, any_large,
}
use sub0pipeline.Channel.Replies.{unavailable_pending, unavailable_queued}

-- One, if the numbers are equal.
abbrev pub one_if : ℕ → ℕ → ℕ
one_if a b = if a == b then 1 else 0

abbrev pub count_queued : ℕ → List Submission → ℕ
count_queued t [] = 0
count_queued t (r ∷ rs) = one_if t r.ticket + count_queued t rs

abbrev pub count_pending : ℕ → List (ℕ × Submission) → ℕ
count_pending t [] = 0
count_pending t ((k, r) ∷ rest) = one_if t r.ticket + count_pending t rest

abbrev pub count_answers : ℕ → List (ℕ × Answer) → ℕ
count_answers t [] = 0
count_answers t ((k, a) ∷ rest) = one_if t k + count_answers t rest

pub count_queued-append :
    (t : ℕ) (xs ys : List Submission)
    → count_queued t (xs ++ ys) ≡ count_queued t xs + count_queued t ys
count_queued-append t [] ys = omega arith
count_queued-append t (x ∷ xs) ys = omega (arith, count_queued-append t xs ys)

pub count_answers-append :
    (t : ℕ) (xs ys : List (ℕ × Answer))
    → count_answers t (xs ++ ys) ≡ count_answers t xs + count_answers t ys
count_answers-append t [] ys = omega arith
count_answers-append t ((k, a) ∷ xs) ys = omega (arith, count_answers-append t xs ys)

pub count_unavailable_pending :
    (t : ℕ) (ps : List (ℕ × Submission))
    → count_answers t (unavailable_pending ps) ≡ count_pending t ps
unfolding unavailable_pending
count_unavailable_pending t [] = refl
count_unavailable_pending t ((k, r) ∷ ps) = omega (arith, count_unavailable_pending t ps)

pub count_unavailable_queued :
    (t : ℕ) (rs : List Submission) → count_answers t (unavailable_queued rs) ≡ count_queued t rs
unfolding unavailable_queued
count_unavailable_queued t [] = refl
count_unavailable_queued t (r ∷ rs) = omega (arith, count_unavailable_queued t rs)

-- Every id is below `n`.
abbrev pub IdsBelow : ℕ → List (ℕ × Submission) → Type 0
IdsBelow n [] = Unit {0}
IdsBelow n ((k, r) ∷ rest) = (k < n) × IdsBelow n rest

pub IdsBelow-mono : (n m : ℕ) (ps : List (ℕ × Submission)) → n ≤ m → IdsBelow n ps → IdsBelow m ps
IdsBelow-mono n m [] le h = tt
IdsBelow-mono n m ((k, r) ∷ ps) le h = (omega (arith, h.0), IdsBelow-mono n m ps le h.1)

pub IdsBelow-find : (n : ℕ) (ps : List (ℕ × Submission)) → IdsBelow n ps → find_pending n ps ≡ none
unfolding find_pending
IdsBelow-find n [] h = refl
IdsBelow-find n ((k, r) ∷ ps) h = ground (arith, h.0, IdsBelow-find n ps h.1)

-- An entry that is there is erased once.
pub erase_pending-found :
    (n id : ℕ) (ps : List (ℕ × Submission)) (r : Submission)
    → find_pending id ps ≡ some r
    → IdsBelow n ps
    → (length ps ≡ length (erase_pending id ps) + 1)
      × IdsBelow n (erase_pending id ps)
      × ((t : ℕ) → count_pending t ps ≡ one_if t r.ticket + count_pending t (erase_pending id ps))
unfolding find_pending erase_pending
erase_pending-found n id [] r e h = absurd (ground (arith, e))
erase_pending-found n id ((k, q) ∷ ps) r e h = elim (Bool-cases (k == id)) [
  | inl here ↦
      let same : q ≡ r = ground (arith, e, here) in
      (ground (arith, here), rw here h.1, λ t. ground (arith, here, same))
  | inr there ↦
      let (size, below, counts) = erase_pending-found n id ps r (ground (arith, e, there)) h.1 in
      (ground (arith, there, size), rw there (h.0, below), λ t. ground (arith, there, counts t))
]

-- send finds an input too large to travel.
abbrev pub too_large : Channel → Submission → Bool
too_large c r = no_strategy c.strategy && any_large c.inline_limit r.request.jobs

-- What send does, when the next id is new.
pub data Sends (r : Submission) (c : Channel) : Sent × Channel → Type 0 where
  refuses :
      (e : PipelineError)
      → (is_connected c.state ≡ false)
        ⊎ ((too_large c r ≡ true) ⊎ (c.in_flight_limit ≤ length c.pending))
      → Sends r c (refused e, c)
  waits :
      is_connected c.state ≡ true
      → too_large c r ≡ false
      → c.in_flight_limit ≤ length c.pending
      → length c.queued < c.options.queue_capacity
      → Sends r c (waiting, record c { queued = c.queued ++ r ∷ [] })
  registers :
      is_connected c.state ≡ true
      → too_large c r ≡ false
      → length c.pending < c.in_flight_limit
      → Sends r c (
        registered c.next_id,
        record c { next_id = c.next_id + 1; pending = (c.next_id, r) ∷ c.pending },
      )

recast_Sends :
    (r : Submission) (c : Channel) (p q : Sent × Channel) → p ≡ q → Sends r c p → Sends r c q
recast_Sends r c p q e h = rw (sym e) h

pub send-Sends :
    (r : Submission) (c : Channel)
    → c.next_id + 1 < 2 ^ 64
    → IdsBelow c.next_id c.pending
    → Sends r c (send r c)
unfolding send emplace_pending
send-Sends r c small below = elim (Bool-cases (is_connected c.state)) [
  | inr off ↦
      recast_Sends r c _ (send r c) (ground (arith, off))
        (refuses PipelineError.unavailable (inl off))
  | inl on ↦ elim (Bool-cases (no_strategy c.strategy && any_large c.inline_limit r.request.jobs)) [
    | inl large ↦
        recast_Sends r c _ (send r c) (ground (arith, on, large))
          (refuses PipelineError.job_failed (inr (inl large)))
    | inr fine ↦ elim (Bool-cases (leb c.in_flight_limit (length c.pending))) [
      | inl full ↦ elim (Bool-cases (ltb (length c.queued) c.options.queue_capacity)) [
        | inl room ↦
            recast_Sends r c _ (send r c) (ground (arith, on, fine, full, room))
              (waits on fine (ground (arith, full)) (ground (arith, room)))
        | inr no_room ↦
            recast_Sends r c _ (send r c) (ground (arith, on, fine, full, no_room))
              (refuses PipelineError.busy (inr (inr (ground (arith, full)))))
      ]
      | inr free ↦
          recast_Sends r c _ (send r c)
            (ground (arith, on, fine, free, IdsBelow-find c.next_id c.pending below))
            (registers on fine (ground (arith, free)))
    ]
  ]
]

-- What takeQueued does.
pub data Takes (c : Channel) : Option Submission × Channel → Type 0 where
  takes_none : c.queued ≡ [] → Takes c (none, c)
  takes :
      (r : Submission) (rs : List Submission)
      → c.queued ≡ r ∷ rs
      → Takes c (some r, record c { queued = rs })

recast_Takes : (c : Channel) (p q : Option Submission × Channel) → p ≡ q → Takes c p → Takes c q
recast_Takes c p q e h = rw (sym e) h

pub take_queued-Takes : (c : Channel) → Takes c (take_queued c)
unfolding take_queued
take_queued-Takes c = elim (List-cases c.queued) [
  | inl e ↦ recast_Takes c _ (take_queued c) (ground (arith, e)) (takes_none e)
  | inr (r, rs, e) ↦ recast_Takes c _ (take_queued c) (ground (arith, e)) (takes r rs e)
]
