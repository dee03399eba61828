-- ===== src/Transport/Queue/Shutdown.antt =====
-- When a call waits, what it does where it does not, and how a queue that was shut down ends.
use sirius_scope.Prelude.{
  Bool, ◌⊎◌, ◌≤◌, ℕ, zero, suc, ◌+◌, ◌<◌, ◌≡◌, refl, true, false, ◌&&◌, not, Option, none, some,
  List, [], ◌∷◌, ◌++◌, length, arith, leb, if◌then◌else◌,
}
use sirius_scope.Transport.Queue.{
  BlockQueue, push, try_push, try_pop, pop, pop_from, shutdown, count_dropped,
}

module _ {ℓ} {A : Type ℓ} where
  abbrev add_block : A → Option (List A × BlockQueue A) → Option (List A × BlockQueue A)
  add_block block none = none
  add_block block (some (blocks, q)) = some (block ∷ blocks, q)

  -- A consumer's loop over `pop` till it returns nothing: what it got, and the queue. The fuel
  -- bounds the rounds; `none` means that it ran out, or that a pop waits.
  unfoldable pub pop_all : ℕ → BlockQueue A → Option (List A × BlockQueue A)
  pop_all zero q = none
  pop_all (suc fuel) q = elim (pop q) [
    | none ↦ none
    | some (q', none) ↦ some ([], q')
    | some (q', some block) ↦ add_block block (pop_all fuel q')
  ]

  -- Where a push does not wait it does what `tryPush` does, and it waits exactly on a full queue
  -- that is not shut down.
  pub push-try_push :
      (q : BlockQueue A) (block : A)
      → push q (some block) ≡ (
          if not q.is_shutdown && leb q.capacity (length q.queue)
          then none
          else some (try_push q (some block)))
  unfolding push try_push
  push-try_push q block = ground arith

  pop-shut :
      (q : BlockQueue A) (blocks : List A)
      → q.queue ≡ blocks
      → q.is_shutdown ≡ true
      → pop q ≡ some (pop_from q blocks)
  unfolding pop try_pop
  pop-shut q blocks e s = rw (s, e) refl

  pop_all-shut :
      (q : BlockQueue A) (blocks : List A)
      → q.queue ≡ blocks
      → q.is_shutdown ≡ true
      → pop_all (suc (length blocks)) q
        ≡ some (blocks, record q { queue = []; popped_blocks = q.popped_blocks + length blocks })
  unfolding pop_all
  pop_all-shut q [] e s = rw (pop_all, pop-shut q [] e s) (ground arith)
  pop_all-shut q (block ∷ rest) e s =
      let q' : BlockQueue A = record q { queue = rest; popped_blocks = q.popped_blocks + 1 } in
      rw (pop_all, pop-shut q (block ∷ rest) e s, pop_all-shut q' rest refl s) (ground arith)

  -- After a shutdown no call waits: pushes are refused and counted, and a consumer that pops gets
  -- all blocks that are left, in order, and then nothing.
  pub shutdown-drains :
      (q : BlockQueue A) (block : A)
      → (push (shutdown q) (some block) ≡ some (count_dropped (shutdown q), false))
        × (try_push (shutdown q) (some block) ≡ (count_dropped (shutdown q), false))
        × (pop_all (suc (length q.queue)) (shutdown q)
            ≡ some (
              q.queue,
              record (shutdown q) { queue = []; popped_blocks = q.popped_blocks + length q.queue },
            ))
  unfolding push try_push shutdown
  shutdown-drains q block = (refl, refl, pop_all-shut (shutdown q) q.queue refl refl)

  -- A consumer gets exactly these blocks, in order, after a shutdown.
  abbrev pub Delivers : BlockQueue A → List A → Type ℓ
  Delivers q blocks =
      pop_all (suc (length blocks)) (shutdown q)
      ≡ some (
        blocks,
        record (shutdown q) { queue = []; popped_blocks = q.popped_blocks + length blocks },
      )

  -- The two outcomes of `tryPush`, with the condition of each.
  abbrev pub Taken : BlockQueue A → A → BlockQueue A × Bool → Type ℓ
  Taken q block (q', ok) =
      (ok ≡ true)
      × (q.is_shutdown ≡ false)
      × (length q.queue < q.capacity)
      × Delivers q' (q.queue ++ block ∷ [])
      × (q'.pushed_blocks ≡ q.pushed_blocks + 1)
      × (q'.dropped_blocks ≡ q.dropped_blocks)

  abbrev pub Dropped : BlockQueue A → BlockQueue A × Bool → Type ℓ
  Dropped q (q', ok) =
      (ok ≡ false)
      × ((q.is_shutdown ≡ true) ⊎ (q.capacity ≤ length q.queue))
      × Delivers q' q.queue
      × (q'.pushed_blocks ≡ q.pushed_blocks)
      × (q'.dropped_blocks ≡ q.dropped_blocks + 1)
