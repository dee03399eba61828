-- ===== src/Transport/Queue/Fifo.antt =====
-- Over any calls the queue hands on what it took, in the same order.
use sirius_scope.Prelude.{
  ℕ, ◌+◌, ◌≤◌, ◌<◌, ◌≡◌, refl, ap, Bool, true, false, ◌||◌, Option, none, some, List, [], ◌∷◌,
  Bool-cases, inl, inr, ◌++◌, length, length-append, arith, ltb, leb, ◌==◌, sym, ◌∙◌, append_assoc,
  append-nil,
}
use sirius_scope.Transport.Queue.{
  BlockQueue, new_queue, push, try_push, try_pop, pop, shutdown, reset, clear, push_back,
  count_dropped, pop_from,
}

-- A call of the queue's interface; the calls of several threads come in the order of the lock.
pub data QueueCall {ℓ} (A : Type ℓ) : Type ℓ where
  push_call : Option A → QueueCall A
  try_push_call : Option A → QueueCall A
  pop_call : QueueCall A
  try_pop_call : QueueCall A
  shutdown_call : QueueCall A
  reset_call : QueueCall A
  clear_call : QueueCall A

-- The queue with what it took and what left it (popped or cleared) since the last reset, and with
-- the numbers of blocks popped, cleared and refused.
pub record Log {ℓ} (A : Type ℓ) : Type ℓ where
  pub state : BlockQueue A
  pub taken : List A
  pub left : List A
  pub cleared : ℕ
  pub refused : ℕ

module _ {ℓ} {A : Type ℓ} where
  abbrev pub new_log : ℕ → Log A
  new_log capacity = record {
    state = new_queue capacity;
    taken = [];
    left = [];
    cleared = 0;
    refused = 0;
  }

  abbrev log_push : Log A → Option A → BlockQueue A × Bool → Log A
  log_push l none r = record l { state = r.0 }
  log_push l (some block) (q, true) = record l { state = q; taken = l.taken ++ block ∷ [] }
  log_push l (some block) (q, false) = record l { state = q; refused = l.refused + 1 }

  abbrev log_pop : Log A → BlockQueue A × Option A → Log A
  log_pop l (q, none) = record l { state = q }
  log_pop l (q, some block) = record l { state = q; left = l.left ++ block ∷ [] }

  abbrev if_pushed : Log A → Option A → Option (BlockQueue A × Bool) → Log A
  if_pushed l block none = l
  if_pushed l block (some r) = log_push l block r

  abbrev if_popped : Log A → Option (BlockQueue A × Option A) → Log A
  if_popped l none = l
  if_popped l (some r) = log_pop l r

  -- A call that waits changes nothing: it is made again when it is woken.
  abbrev pub call : Log A → QueueCall A → Log A
  call l (push_call block) = if_pushed l block (push l.state block)
  call l (try_push_call block) = log_push l block (try_push l.state block)
  call l pop_call = if_popped l (pop l.state)
  call l try_pop_call = log_pop l (try_pop l.state)
  call l shutdown_call = record l { state = shutdown l.state }
  call l reset_call = record (new_log 0) { state = reset l.state }
  call l clear_call = record l {
    state = clear l.state;
    left = l.left ++ l.state.queue;
    cleared = l.cleared + length l.state.queue;
  }

  abbrev pub call_all : Log A → List (QueueCall A) → Log A
  call_all l [] = l
  call_all l (c ∷ cs) = call_all (call l c) cs

  pub record IsFifo (capacity : ℕ) (l : Log A) : Type ℓ where
    pub same_capacity : l.state.capacity ≡ capacity
    pub in_order : l.taken ≡ l.left ++ l.state.queue
    pub bounded : length l.state.queue ≤ capacity
    pub count_pushed : l.state.pushed_blocks ≡ length l.taken
    pub count_popped : l.state.popped_blocks + l.cleared ≡ length l.left
    pub count_refused : l.state.dropped_blocks ≡ l.refused

  push_back-IsFifo :
      (capacity : ℕ) (l : Log A) (block : A)
      → length l.state.queue < capacity
      → IsFifo capacity l
      → IsFifo capacity
          (record l { state = push_back l.state block; taken = l.taken ++ block ∷ [] })
  push_back-IsFifo capacity l block room h = record {
    same_capacity = h.same_capacity;
    in_order =
        ap (λ xs. xs ++ block ∷ []) h.in_order ∙ append_assoc l.left l.state.queue (block ∷ []);
    bounded = omega (arith, length-append l.state.queue (block ∷ []));
    count_pushed = omega (arith, length-append l.taken (block ∷ []), h.count_pushed);
    count_popped = h.count_popped;
    count_refused = h.count_refused;
  }

  count_dropped-IsFifo :
      (capacity : ℕ) (l : Log A)
      → IsFifo capacity l
      → IsFifo capacity (record l { state = count_dropped l.state; refused = l.refused + 1 })
  count_dropped-IsFifo capacity l h = record {
    same_capacity = h.same_capacity;
    in_order = h.in_order;
    bounded = h.bounded;
    count_pushed = h.count_pushed;
    count_popped = h.count_popped;
    count_refused = omega (arith, h.count_refused);
  }

  try_push-IsFifo :
      (capacity : ℕ) (l : Log A) (block : Option A)
      → IsFifo capacity l
      → IsFifo capacity (log_push l block (try_push l.state block))
  unfolding try_push
  try_push-IsFifo capacity l none h = h
  try_push-IsFifo capacity l (some block) h =
      elim (Bool-cases (
        l.state.is_shutdown
        || l.state.capacity == 0
        || leb l.state.capacity (length l.state.queue))) [
          | inl yes' ↦ rw yes' (count_dropped-IsFifo capacity l h)
          | inr no' ↦ rw no' (push_back-IsFifo capacity l block (ground (arith, h.same_capacity)) h)
        ]

  push-IsFifo :
      (capacity : ℕ) (l : Log A) (block : Option A)
      → IsFifo capacity l
      → IsFifo capacity (if_pushed l block (push l.state block))
  unfolding push
  push-IsFifo capacity l none h = h
  push-IsFifo capacity l (some block) h =
      elim (Bool-cases (l.state.is_shutdown || ltb (length l.state.queue) l.state.capacity)) [
        | inr no' ↦ rw no' h
        | inl yes' ↦ elim (Bool-cases (l.state.is_shutdown || l.state.capacity == 0)) [
          | inl shut ↦ rw (yes', shut) (count_dropped-IsFifo capacity l h)
          | inr open' ↦
              rw (yes', open')
                (push_back-IsFifo capacity l block (ground (arith, h.same_capacity)) h)
        ]
      ]

  pop_from-IsFifo :
      (capacity : ℕ) (l : Log A) (blocks : List A)
      → l.state.queue ≡ blocks
      → IsFifo capacity l
      → IsFifo capacity (log_pop l (pop_from l.state blocks))
  pop_from-IsFifo capacity l [] e h = h
  pop_from-IsFifo capacity l (block ∷ rest) e h = record {
    same_capacity = h.same_capacity;
    in_order = h.in_order ∙ ap (λ xs. l.left ++ xs) e ∙ sym (append_assoc l.left (block ∷ []) rest);
    bounded = omega (arith, ap length e, h.bounded);
    count_pushed = h.count_pushed;
    count_popped = omega (arith, length-append l.left (block ∷ []), h.count_popped);
    count_refused = h.count_refused;
  }

  pop-IsFifo :
      (capacity : ℕ) (l : Log A) → IsFifo capacity l → IsFifo capacity (if_popped l (pop l.state))
  unfolding pop try_pop
  pop-IsFifo capacity l h =
      elim (Bool-cases (l.state.is_shutdown || ltb 0 (length l.state.queue))) [
        | inl yes' ↦ rw yes' (pop_from-IsFifo capacity l l.state.queue refl h)
        | inr no' ↦ rw no' h
      ]

  call-IsFifo :
      (capacity : ℕ) (l : Log A) (c : QueueCall A) → IsFifo capacity l → IsFifo capacity (call l c)
  unfolding try_pop shutdown reset clear
  call-IsFifo capacity l (push_call block) h = push-IsFifo capacity l block h
  call-IsFifo capacity l (try_push_call block) h = try_push-IsFifo capacity l block h
  call-IsFifo capacity l pop_call h = pop-IsFifo capacity l h
  call-IsFifo capacity l try_pop_call h = pop_from-IsFifo capacity l l.state.queue refl h
  call-IsFifo capacity l shutdown_call h = record {
    same_capacity = h.same_capacity;
    in_order = h.in_order;
    bounded = h.bounded;
    count_pushed = h.count_pushed;
    count_popped = h.count_popped;
    count_refused = h.count_refused;
  }
  call-IsFifo capacity l reset_call h = record {
    same_capacity = h.same_capacity;
    in_order = refl;
    bounded = omega arith;
    count_pushed = refl;
    count_popped = refl;
    count_refused = refl;
  }
  call-IsFifo capacity l clear_call h = record {
    same_capacity = h.same_capacity;
    in_order = h.in_order ∙ sym (append-nil (l.left ++ l.state.queue));
    bounded = omega arith;
    count_pushed = h.count_pushed;
    count_popped = omega (arith, length-append l.left l.state.queue, h.count_popped);
    count_refused = h.count_refused;
  }

  call_all-IsFifo :
      (capacity : ℕ) (l : Log A) (cs : List (QueueCall A))
      → IsFifo capacity l
      → IsFifo capacity (call_all l cs)
  call_all-IsFifo capacity l [] h = h
  call_all-IsFifo capacity l (c ∷ cs) h =
      call_all-IsFifo capacity (call l c) cs (call-IsFifo capacity l c h)

  -- Whatever calls are made on a new queue, in any order: since the last reset the blocks that it
  -- took are those that left it, by a pop or a clear, and then those it holds, in the same order;
  -- it holds no more than its capacity; and its counters are the numbers of blocks that it took,
  -- that were popped, and that it refused.
  pub new_queue-IsFifo :
      (capacity : ℕ) (cs : List (QueueCall A)) → IsFifo capacity (call_all (new_log capacity) cs)
  new_queue-IsFifo capacity cs = call_all-IsFifo capacity (new_log capacity) cs (record {
    same_capacity = refl;
    in_order = refl;
    bounded = omega arith;
    count_pushed = refl;
    count_popped = refl;
    count_refused = refl;
  })
