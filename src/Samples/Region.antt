-- ===== src/Samples/Region.antt =====
-- A region of 320 bytes, for src/remote/shared_memory.cpp.
use sub0pipeline.Prelude.{◌+◌, ◌%◌, ◌≤◌, ◌≡◌, refl, true, some, [], ◌∷◌, arith}
use sub0pipeline.Region.{
  Block, State, init_free, allocate_block, find_block, change_block, erase_address,
  release_if_unused, drop_local, take_fit, block_size, erase_block, put, put_after, find_address,
  usable, alignment,
}
use sub0pipeline.Region.Uses.{Held}
use sub0pipeline.Region.Life.{
  HasRoom, HasIds, Life, offered, allocated, sent, dropped, closed, Life-Held, Life-recovers,
  Life-allocate, Apart,
}
use sub0pipeline.Region.Sharing.{
  allocate, send, hold_block, push_scope, on_closed, clear_holds, ids_of, release_all, receive,
  reference_of,
}
use sub0pipeline.Region.References.{receive-reference_of}

abbrev fresh_state : State
fresh_state = record {
  region_bytes = some 320;
  coordinator = true;
  free = [];
  in_use = 0;
  blocks = [];
  by_address = [];
  scopes = [];
  next_block = 1;
}

abbrev first_block : Block
first_block = record { id = 1; offset = 0; size = 128; local_refs = 0; peer_holds = 0 }

abbrev second_block : Block
second_block = record { id = 2; offset = 128; size = 64; local_refs = 0; peer_holds = 0 }

abbrev leased_once : State
leased_once = record fresh_state {
  free = record { offset = 128; size = 192 } ∷ [];
  in_use = 128;
  blocks = record { id = 1; offset = 0; size = 128; local_refs = 1; peer_holds = 0 } ∷ [];
  by_address = (0, 1) ∷ [];
  next_block = 2;
}

abbrev leased_twice : State
leased_twice = record fresh_state {
  free = record { offset = 192; size = 128 } ∷ [];
  in_use = 192;
  blocks =
      record { id = 2; offset = 128; size = 64; local_refs = 1; peer_holds = 0 }
      ∷ record { id = 1; offset = 0; size = 128; local_refs = 1; peer_holds = 0 }
      ∷ [];
  by_address = (128, 2) ∷ (0, 1) ∷ [];
  next_block = 3;
}

first_lease : allocate 100 (init_free fresh_state) ≡ some (first_block, leased_once)
unfolding allocate init_free allocate_block take_fit block_size change_block erase_address
first_lease = refl

second_lease : allocate 10 leased_once ≡ some (second_block, leased_twice)
unfolding allocate allocate_block take_fit block_size change_block erase_address
second_lease = refl

first_id : HasIds (init_free fresh_state)
unfolding init_free
first_id = omega arith

-- Two buffers are leased, and the first is sent to the peer in scope 7.
unfoldable life_once : Life 320 leased_once
life_once =
    allocated 100 first_block first_id
      (offered (record { region = refl; blocks = refl; in_use = refl; addresses = refl }))
      first_lease

unfoldable life_twice : Life 320 leased_twice
unfolding life_once
life_twice = allocated 10 second_block (omega arith) life_once second_lease

no_holds : HasRoom leased_twice
unfolding find_block
no_holds b id e = ground (arith, e)

unfoldable life_sent : Life 320 (send (some 0) 100 7 leased_twice).1
unfolding life_twice
life_sent = sent (some 0) 100 7 life_twice no_holds (omega arith)

-- Both buffers are dropped, and then the connection is lost.
unfoldable life_back :
    Life 320 (on_closed (drop_local 1 (drop_local 2 (send (some 0) 100 7 leased_twice).1)))
unfolding life_sent
life_back = closed (dropped 1 (dropped 2 life_sent))

all_gone :
    (on_closed (drop_local 1 (drop_local 2 (send (some 0) 100 7 leased_twice).1))).blocks ≡ []
unfolding send find_address hold_block find_block change_block push_scope drop_local
    release_if_unused on_closed clear_holds ids_of release_all erase_block erase_address put
    put_after
all_gone = refl

Life-Held_example : Held 320 [] (send (some 0) 100 7 leased_twice).1
Life-Held_example = Life-Held life_sent

Life-recovers_example :
    ((on_closed (drop_local 1 (drop_local 2 (send (some 0) 100 7 leased_twice).1))).free
      ≡ record { offset = 0; size = usable 320 } ∷ [])
    × ((on_closed (drop_local 1 (drop_local 2 (send (some 0) 100 7 leased_twice).1))).in_use ≡ 0)
Life-recovers_example = Life-recovers life_back all_gone (omega arith)

Life-allocate_example :
    (128 % alignment ≡ 0) × (128 + 64 ≤ 320) × (10 ≤ 64) × Apart second_block leased_once.blocks
Life-allocate_example =
    Life-allocate 10 second_block (omega arith) life_once second_lease (omega arith)

receive-reference_of_example : receive (some 320) (reference_of 1 0 100) ≡ some (1, 0, 100)
unfolding find_block
receive-reference_of_example =
    receive-reference_of 1 100
      (record { id = 1; offset = 0; size = 128; local_refs = 1; peer_holds = 0 }) life_twice refl
      (omega arith) (omega arith) (omega arith)
