-- ===== src/Wire/Sequence.antt =====
-- `SequenceTracker` of modules/bco-generator/src/protocol.cpp: the policy that drops late and
-- duplicate packets and counts the missing ones.
use sirius_scope.Prelude.{
  ℕ, ◌+◌, ◌-◌, ◌%◌, ◌^◌, ◌≤◌, ◌<◌, ◌≡◌, ◌↔◌, ◌≢◌, ◌⊎◌, refl, Bool, true, false, ◌&&◌, List, [], ◌∷◌,
  length, All, arith, inl, inr, subst, Bool-cases, ltb, ◌==◌, if◌then◌else◌,
}

pub record SequenceTracker : Type 0 where
  pub initialized : Bool
  pub next : ℕ
  pub missing : ℕ
  pub late : ℕ

abbrev pub fresh : SequenceTracker
fresh = record { initialized = false; next = 0; missing = 0; late = 0 }

-- The sums are those of `std::uint64_t`.
unfoldable pub accept : SequenceTracker → ℕ → SequenceTracker × Bool
accept t sequence =
    if sequence == 2 ^ 64 - 1
    then (t, false)
    else if t.initialized && ltb sequence t.next
    then (record t { late = (t.late + 1) % 2 ^ 64 }, false)
    else (
      record t {
        initialized = true;
        next = (sequence + 1) % 2 ^ 64;
        missing =
            if ltb t.next sequence then (t.missing + (sequence - t.next)) % 2 ^ 64 else t.missing;
      },
      true,
    )

-- The packets of a run in the order of their arrival, and those that `accept` lets through.
unfoldable pub accept_all : SequenceTracker → List ℕ → SequenceTracker × List ℕ
accept_all t [] = (t, [])
accept_all t (s ∷ ss) =
    let (t', passed) = accept t s in
    let (t'', rest) = accept_all t' ss in (t'', if passed then s ∷ rest else rest)

-- How many packets carry the number that `accept` refuses always.
abbrev pub count_reserved : List ℕ → ℕ
count_reserved [] = 0
count_reserved (s ∷ ss) = (if s == 2 ^ 64 - 1 then 1 else 0) + count_reserved ss

-- Strictly rising numbers from `lo` on, all below `hi`.
abbrev pub Rising : ℕ → ℕ → List ℕ → Type 0
Rising lo hi [] = lo ≤ hi
Rising lo hi (s ∷ ss) = (lo ≤ s) × Rising (s + 1) hi ss

-- After `passed` packets were let through and `seen` arrived, `reserved` of them refused always.
record Account (t : SequenceTracker) (passed seen reserved : ℕ) : Type 0 where
  gaps : t.missing + passed ≡ t.next
  word : t.next < 2 ^ 64
  arrivals : t.late + passed + reserved ≡ seen
  start : (t.initialized ≡ true) ⊎ (t.next ≡ 0)

abbrev one_if : Bool → ℕ
one_if b = if b then 1 else 0

accept-Account :
    (t : SequenceTracker) (s passed seen reserved : ℕ)
    → s < 2 ^ 64
    → seen + 1 < 2 ^ 64
    → Account t passed seen reserved
    → Account
        (accept t s).0
        (passed + one_if (accept t s).1)
        (seen + 1)
        (reserved + one_if (s == 2 ^ 64 - 1))
unfolding accept
accept-Account t s passed seen reserved w l a = ground arith

accept_all-Account :
    (t : SequenceTracker) (ss : List ℕ) (passed seen reserved : ℕ)
    → All (λ s. s < 2 ^ 64) ss
    → seen + length ss < 2 ^ 64
    → Account t passed seen reserved
    → Account
        (accept_all t ss).0
        (passed + length (accept_all t ss).1)
        (seen + length ss)
        (reserved + count_reserved ss)
unfolding accept_all
accept_all-Account t [] passed seen reserved w l a = ground arith
accept_all-Account t (s ∷ ss) passed seen reserved w l a =
    let step = accept-Account t s passed seen reserved w.0 (omega arith) a in
    let rest =
      accept_all-Account (accept t s).0 ss (passed + one_if (accept t s).1) (seen + 1)
        (reserved + one_if (s == 2 ^ 64 - 1)) w.1 (omega arith) step in
    ground arith

accept-Rising :
    (t : SequenceTracker) (s : ℕ)
    → s < 2 ^ 64
    → ((accept t s).1 ≡ true)
    → (t.initialized ≡ true) ⊎ (t.next ≡ 0)
    → (t.next ≤ s) × ((accept t s).0.next ≡ s + 1)
unfolding accept
accept-Rising t s w e st = ground arith

accept-initialized :
    (t : SequenceTracker) (s : ℕ)
    → (t.initialized ≡ true) ⊎ (t.next ≡ 0)
    → ((accept t s).0.initialized ≡ true) ⊎ ((accept t s).0.next ≡ 0)
unfolding accept
accept-initialized t s st = ground arith

accept-refused :
    (t : SequenceTracker) (s : ℕ) → (accept t s).1 ≡ false → (accept t s).0.next ≡ t.next
unfolding accept
accept-refused t s e = ground arith

Rising-from : (lo lo' hi : ℕ) (ss : List ℕ) → lo ≡ lo' → Rising lo hi ss → Rising lo' hi ss
Rising-from lo lo' hi ss e r = subst (λ k. Rising k hi ss) e r

accept_all-Rising :
    (t : SequenceTracker) (ss : List ℕ)
    → All (λ s. s < 2 ^ 64) ss
    → (t.initialized ≡ true) ⊎ (t.next ≡ 0)
    → Rising t.next (accept_all t ss).0.next (accept_all t ss).1
unfolding accept_all
accept_all-Rising t [] w st = omega arith
accept_all-Rising t (s ∷ ss) w st =
    let rest = accept_all-Rising (accept t s).0 ss w.1 (accept-initialized t s st) in
    elim (Bool-cases (accept t s).1) [
      | inl yes' ↦
          let (above, next) = accept-Rising t s w.0 yes' st in
          rw yes' (above, Rising-from _ (s + 1) _ _ next rest)
      | inr no' ↦ rw no' (Rising-from _ t.next _ _ (accept-refused t s no') rest)
    ]

-- Over any run of packets from a fresh tracker whose numbers are 64-bit words (and fewer than
-- 2^64 of them): the packets let through have strictly rising numbers below `next`; with the
-- packets counted as missing they make up all numbers below `next`; and with the packets counted
-- as late and those of the one number that is always refused they make up all that arrived.
pub accept_all-account :
    (ss : List ℕ)
    → All (λ s. s < 2 ^ 64) ss
    → length ss < 2 ^ 64
    → let (t, passed) = accept_all fresh ss in
      Rising 0 t.next passed
      × (t.missing + length passed ≡ t.next)
      × (t.late + length passed + count_reserved ss ≡ length ss)
accept_all-account ss w l =
    let a = accept_all-Account fresh ss 0 0 0 w (omega arith) (omega arith) in
    (accept_all-Rising fresh ss w (inr refl), omega (arith, a.gaps), omega (arith, a.arrivals))

-- A packet is let through exactly when its number is not the reserved one and is not below `next`,
-- or nothing came before; a packet that is not let through changes at most the count of late ones.
pub accept_iff :
    (t : SequenceTracker) (s : ℕ)
    → (((accept t s).1 ≡ true) ↔ ((s ≢ 2 ^ 64 - 1) × ((t.initialized ≡ false) ⊎ (t.next ≤ s))))
      × (((accept t s).1 ≡ false) → (accept t s).0 ≡ record t { late = (accept t s).0.late })
unfolding accept
accept_iff t s = ground arith
