-- ===== src/Transport/Pool/Holders.antt =====
-- Who holds which block: each is free or held by one holder, and none is lost.
use sirius_scope.Prelude.{
  ℕ, zero, suc, ◌+◌, ◌≤◌, ◌<◌, ◌≡◌, refl, ◌∙◌, ap, List, [], ◌∷◌, ◌++◌, length, length-set,
  length-replicate, arith, get_or, set, replicate, ℕ_discrete, dec_lt, Option, none, some,
}
use sirius_scope.Prelude.Counts.{count}
use sirius_scope.Transport.Pool.{
  SignalBlockPoolConfig, SignalBlockPool, new_pool, down_from, acquire_from, release, release_all,
  block_at, write_block, new_block, no_metadata,
}
use sirius_scope.Transport.Block.{SignalBlock}
use sirius_scope.Transport.Block

count-down_from_above : (n id : ℕ) → n ≤ id → count id (down_from n) ≡ 0
count-down_from_above zero id h = refl
count-down_from_above (suc n) id h =
    let rest = count-down_from_above n id (omega arith) in ground arith

pub count-down_from : (n id : ℕ) → count id (down_from n) ≤ 1
count-down_from zero id = omega arith
count-down_from (suc n) id =
    let rest = count-down_from n id in
    let above = count-down_from_above n n (omega arith) in
    elim (ℕ_discrete id n) [ yes e ↦ rw e (ground arith) | no d ↦ ground arith ]

-- A block that is counted among the first `n` is one of them.
pub count-below : (n id : ℕ) → 0 < count id (down_from n) → id < n
count-below n id h = elim (dec_lt id n) [
  | yes l ↦ l
  | no l ↦ absurd (omega (arith, count-down_from_above n id))
]

pub length-down_from : (n : ℕ) → length (down_from n) ≡ n
length-down_from zero = refl
length-down_from (suc n) = omega (arith, length-down_from n)

-- The handle as a list of none or one.
abbrev pub handle_of : Option ℕ → List ℕ
handle_of none = []
handle_of (some id) = id ∷ []

module _ {ℓ} {Angle : Type ℓ} where
  -- The blocks in `held` are those out of the pool.
  pub record IsAccounted (c : SignalBlockPoolConfig) (p : SignalBlockPool Angle) (held : List ℕ)
      : Type ℓ where
    pub same_config : p.config ≡ c
    pub all_blocks : length p.blocks ≡ c.block_count
    pub one_holder :
        (id : ℕ) → count id p.available + count id held ≡ count id (down_from c.block_count)
    pub total : length p.available + length held ≡ c.block_count
    pub balance : p.released + length held ≡ p.acquired
    pub sizes : (id : ℕ) → (block_at p id).max_samples ≡ c.max_samples_per_block

  set-size :
      (blocks : List (SignalBlock Angle)) (id j : ℕ) (b d : SignalBlock Angle) (size : ℕ)
      → b.max_samples ≡ size
      → (get_or blocks j d).max_samples ≡ size
      → (get_or (set blocks id b) j d).max_samples ≡ size
  set-size [] id j b d size e h = h
  set-size (x ∷ xs) zero zero b d size e h = e
  set-size (x ∷ xs) zero (suc j) b d size e h = h
  set-size (x ∷ xs) (suc id) zero b d size e h = h
  set-size (x ∷ xs) (suc id) (suc j) b d size e h = set-size xs id j b d size e h

  replicate-size :
      (n j : ℕ) (d : SignalBlock Angle) → (get_or (replicate n d) j d).max_samples ≡ d.max_samples
  replicate-size zero j d = refl
  replicate-size (suc n) zero d = refl
  replicate-size (suc n) (suc j) d = replicate-size n j d

  pub new_pool-IsAccounted : (c : SignalBlockPoolConfig) → IsAccounted c (new_pool c) []
  new_pool-IsAccounted c = record {
    same_config = refl;
    all_blocks = length-replicate c.block_count (new_block c.max_samples_per_block);
    one_holder = λ id. omega arith;
    total = omega (arith, length-down_from c.block_count);
    balance = refl;
    sizes = λ id. replicate-size c.block_count id (new_block c.max_samples_per_block);
  }

  module _ (c : SignalBlockPoolConfig) where
    -- What holds of the pool is kept when the blocks change hands outside of it.
    pub IsAccounted-exchange :
        (p : SignalBlockPool Angle) (held held' : List ℕ)
        → ((id : ℕ) → count id held' ≡ count id held)
        → length held' ≡ length held
        → IsAccounted c p held
        → IsAccounted c p held'
    IsAccounted-exchange p held held' e l h = record {
      same_config = h.same_config;
      all_blocks = h.all_blocks;
      one_holder = λ id. omega (arith, e id, h.one_holder id);
      total = omega (arith, l, h.total);
      balance = omega (arith, l, h.balance);
      sizes = h.sizes;
    }

    pub write_block-IsAccounted :
        (p : SignalBlockPool Angle) (held : List ℕ) (id : ℕ) (b : SignalBlock Angle)
        → b.max_samples ≡ c.max_samples_per_block
        → IsAccounted c p held
        → IsAccounted c (write_block p id b) held
    write_block-IsAccounted p held id b e h = record {
      same_config = h.same_config;
      all_blocks = length-set p.blocks id b ∙ h.all_blocks;
      one_holder = h.one_holder;
      total = h.total;
      balance = h.balance;
      sizes = λ j. set-size p.blocks id j b _ c.max_samples_per_block e (h.sizes j);
    }

    pub acquire-IsAccounted :
        (p : SignalBlockPool Angle) (held ids : List ℕ) (now : ℕ)
        → p.available ≡ ids
        → IsAccounted c p held
        → IsAccounted c (acquire_from p now ids).0 (handle_of (acquire_from p now ids).1 ++ held)
    unfolding Block.reset
    acquire-IsAccounted p held [] now e h = record {
      same_config = h.same_config;
      all_blocks = h.all_blocks;
      one_holder = h.one_holder;
      total = omega (arith, ap length e, h.total);
      balance = h.balance;
      sizes = h.sizes;
    }
    acquire-IsAccounted p held (id ∷ ids) now e h =
        let b = Block.reset (block_at p id) no_metadata now in
        let w = write_block-IsAccounted p held id b (h.sizes id) h in
        record {
          same_config = h.same_config;
          all_blocks = w.all_blocks;
          one_holder = λ j. omega (arith, ap (count j) e, h.one_holder j);
          total = omega (arith, ap length e, h.total);
          balance = omega (arith, h.balance);
          sizes = w.sizes;
        }

    pub release-IsAccounted :
        (p : SignalBlockPool Angle) (held : List ℕ) (id now : ℕ)
        → IsAccounted c p (id ∷ held)
        → IsAccounted c (release p now id) held
    unfolding release Block.reset
    release-IsAccounted p held id now h =
        let b = Block.reset (block_at p id) no_metadata now in
        let w = write_block-IsAccounted p (id ∷ held) id b (h.sizes id) h in
        record {
          same_config = h.same_config;
          all_blocks = w.all_blocks;
          one_holder = λ j. omega (arith, h.one_holder j);
          total = omega (arith, h.total);
          balance = omega (arith, h.balance);
          sizes = w.sizes;
        }

    pub release_all-IsAccounted :
        (p : SignalBlockPool Angle) (ids held : List ℕ) (now : ℕ)
        → IsAccounted c p (ids ++ held)
        → IsAccounted c (release_all p now ids) held
    release_all-IsAccounted p [] held now h = h
    release_all-IsAccounted p (id ∷ ids) held now h =
        release_all-IsAccounted (release p now id) ids held now
          (release-IsAccounted p (ids ++ held) id now h)
