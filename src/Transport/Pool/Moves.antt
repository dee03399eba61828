-- ===== src/Transport/Pool/Moves.antt =====
-- The blocks in use as they move between the queue and the engine.
use sirius_scope.Prelude.{ℕ, List, [], ◌∷◌, ◌++◌, length-append, arith}
use sirius_scope.Transport.Pool.{SignalBlockPoolConfig, SignalBlockPool, release}
use sirius_scope.Prelude.Counts.{count-append}
use sirius_scope.Transport.Pool.Holders.{IsAccounted, IsAccounted-exchange, release-IsAccounted}

module _ {ℓ} {Angle : Type ℓ} where
  -- A block moves from the front of a list into the middle.
  pub move-IsAccounted :
      (c : SignalBlockPoolConfig) (p : SignalBlockPool Angle) (id : ℕ) (before after : List ℕ)
      → IsAccounted c p (id ∷ (before ++ after))
      → IsAccounted c p (before ++ id ∷ [] ++ after)
  move-IsAccounted c p id before after h =
      IsAccounted-exchange c p (id ∷ (before ++ after)) (before ++ id ∷ [] ++ after)
        (λ j. omega (
          arith,
          count-append j (before ++ id ∷ []) after,
          count-append j before (id ∷ []),
          count-append j before after,
        ))
        (omega (
          arith,
          length-append (before ++ id ∷ []) after,
          length-append before (id ∷ []),
          length-append before after,
        ))
        h

  pub take-IsAccounted :
      (c : SignalBlockPoolConfig) (p : SignalBlockPool Angle) (id : ℕ) (queued held : List ℕ)
      → IsAccounted c p (id ∷ (queued ++ held))
      → IsAccounted c p (queued ++ id ∷ held)
  take-IsAccounted c p id queued held h =
      IsAccounted-exchange c p (id ∷ (queued ++ held)) (queued ++ id ∷ held)
        (λ j. omega (arith, count-append j queued (id ∷ held), count-append j queued held))
        (omega (arith, length-append queued (id ∷ held), length-append queued held)) h

  pub done-IsAccounted :
      (c : SignalBlockPoolConfig) (p : SignalBlockPool Angle) (id now : ℕ)
      (queued before after : List ℕ)
      → IsAccounted c p (queued ++ (before ++ id ∷ after))
      → IsAccounted c (release p now id) (queued ++ (before ++ after))
  done-IsAccounted c p id now queued before after h =
      release-IsAccounted c p (queued ++ (before ++ after)) id now (
        IsAccounted-exchange c p (queued ++ (before ++ id ∷ after))
          (id ∷ (queued ++ (before ++ after)))
          (λ j. omega (
            arith,
            count-append j queued (before ++ id ∷ after),
            count-append j before (id ∷ after),
            count-append j queued (before ++ after),
            count-append j before after,
          ))
          (omega (
            arith,
            length-append queued (before ++ id ∷ after),
            length-append before (id ∷ after),
            length-append queued (before ++ after),
            length-append before after,
          ))
          h)
