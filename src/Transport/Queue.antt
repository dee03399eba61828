-- ===== src/Transport/Queue.antt =====
-- `BoundedBlockQueue` of src/pipeline/bounded_block_queue.h. Each operation is what happens under
-- the lock; one that would wait on its condition variable gives `none`. The counters are not
-- bounded by 64 bits here.
pub mod Fifo
pub mod Shutdown
use sirius_scope.Prelude.{
  ℕ, ◌+◌, Bool, true, false, ◌||◌, Option, none, some, List, [], ◌∷◌, ◌++◌, length, ltb, leb, ◌==◌,
  if◌then◌else◌,
}

pub record BlockQueue {ℓ} (A : Type ℓ) : Type ℓ where
  pub capacity : ℕ
  pub queue : List A
  pub pushed_blocks : ℕ
  pub popped_blocks : ℕ
  pub dropped_blocks : ℕ
  pub is_shutdown : Bool

module _ {ℓ} {A : Type ℓ} where
  abbrev pub new_queue : ℕ → BlockQueue A
  new_queue capacity = record {
    capacity = capacity;
    queue = [];
    pushed_blocks = 0;
    popped_blocks = 0;
    dropped_blocks = 0;
    is_shutdown = false;
  }

  abbrev pub count_dropped : BlockQueue A → BlockQueue A
  count_dropped q = record q { dropped_blocks = q.dropped_blocks + 1 }

  abbrev pub push_back : BlockQueue A → A → BlockQueue A
  push_back q block = record q {
    queue = q.queue ++ block ∷ [];
    pushed_blocks = q.pushed_blocks + 1;
  }

  -- The handle is `none` where the source's is null. It waits for a shutdown or a free place, and
  -- so for ever on a queue of no capacity that is not shut down.
  unfoldable pub push : BlockQueue A → Option A → Option (BlockQueue A × Bool)
  push q none = some (q, false)
  push q (some block) =
      if q.is_shutdown || ltb (length q.queue) q.capacity
      then some (
          if q.is_shutdown || q.capacity == 0
          then (count_dropped q, false)
          else (push_back q block, true))
      else none

  unfoldable pub try_push : BlockQueue A → Option A → BlockQueue A × Bool
  try_push q none = (q, false)
  try_push q (some block) =
      if q.is_shutdown || q.capacity == 0 || leb q.capacity (length q.queue)
      then (count_dropped q, false)
      else (push_back q block, true)

  -- The rest of `try_pop`, by what the queue holds.
  abbrev pub pop_from : BlockQueue A → List A → BlockQueue A × Option A
  pop_from q [] = (q, none)
  pop_from q (block ∷ rest) =
      (record q { queue = rest; popped_blocks = q.popped_blocks + 1 }, some block)

  unfoldable pub try_pop : BlockQueue A → BlockQueue A × Option A
  try_pop q = pop_from q q.queue

  -- It waits for a shutdown or a block; `some (q, none)` is the source's `std::nullopt`.
  unfoldable pub pop : BlockQueue A → Option (BlockQueue A × Option A)
  unfolding try_pop
  pop q = if q.is_shutdown || ltb 0 (length q.queue) then some (try_pop q) else none

  unfoldable pub shutdown : BlockQueue A → BlockQueue A
  shutdown q = record q { is_shutdown = true }

  unfoldable pub reset : BlockQueue A → BlockQueue A
  reset q = new_queue q.capacity

  unfoldable pub clear : BlockQueue A → BlockQueue A
  clear q = record q { queue = [] }
