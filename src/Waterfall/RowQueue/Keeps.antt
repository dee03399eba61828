-- ===== src/Waterfall/RowQueue/Keeps.antt =====
-- Which rows an overflow keeps, by the policy.
use sirius_scope.Prelude.{
  ℕ, ◌-◌, ◌≤◌, ◌<◌, ◌≡◌, refl, ap, sym, ◌∙◌, subst, List, [], ◌∷◌, ◌++◌, map, length, length-append,
  length-drop, length-take, take, drop, arith, Bool-cases, inl, inr, if-elim, leb, ◌==◌,
  append_assoc, append-nil,
}
use sirius_scope.Prelude.Cuts.{
  last_of, take-all, take-long, take_idem, drop-append, last_idem, length-zero, map-append,
  map-drop, length-map,
}
use sirius_scope.Waterfall.RowQueue.{
  WaterfallOverflowPolicy, drop_oldest, drop_newest, WaterfallRowQueueConfig, WaterfallQueuedRow,
  WaterfallRowQueue, PushResult, append_row, overflow_row, push_row, push_each, push_rows,
}

-- What the policy keeps of all rows.
abbrev pub keep {ℓ} : {A : Type ℓ} → WaterfallOverflowPolicy → ℕ → List A → List A
keep drop_oldest n xs = last_of n xs
keep drop_newest n xs = take n xs

module _ {ℓ} {A : Type ℓ} where
  keep_idem :
      (policy : WaterfallOverflowPolicy) (n : ℕ) (xs ys : List A)
      → keep policy n (keep policy n xs ++ ys) ≡ keep policy n (xs ++ ys)
  keep_idem drop_oldest n xs ys = last_idem n xs ys
  keep_idem drop_newest n xs ys = take_idem n xs ys

  length-keep :
      (policy : WaterfallOverflowPolicy) (n : ℕ) (xs : List A) → length (keep policy n xs) ≤ n
  length-keep drop_oldest n xs = omega (arith, length-drop (length xs - n) xs)
  length-keep drop_newest n xs = omega (arith, length-take n xs)

  keep-all :
      (policy : WaterfallOverflowPolicy) (n : ℕ) (xs : List A)
      → length xs ≤ n
      → keep policy n xs ≡ xs
  keep-all drop_oldest n xs h = let all : length xs - n ≡ 0 = omega arith in ap (λ k. drop k xs) all
  keep-all drop_newest n xs h = take-long n xs h

module _ {ℓ} {Row Metadata : Type ℓ} where
  abbrev pub rows_of : WaterfallRowQueue Row Metadata → List Row
  rows_of q = map (λ r. r.row) q.rows

  rows_of-append :
      (q : WaterfallRowQueue Row Metadata) (m : Metadata) (row : Row)
      → rows_of (append_row q m row) ≡ rows_of q ++ row ∷ []
  rows_of-append q m row = map-append (λ r. r.row) q.rows _

  overflow-keeps :
      (policy : WaterfallOverflowPolicy) (q : WaterfallRowQueue Row Metadata) (result : PushResult)
      (m : Metadata) (row : Row) (n : ℕ)
      → length q.rows ≡ n
      → 0 < n
      → rows_of (overflow_row policy q result m row).0 ≡ keep policy n (rows_of q ++ row ∷ [])
  overflow-keeps drop_newest q result m row n l p =
      sym (take-all n (rows_of q) (row ∷ []) (length-map (λ r. r.row) q.rows ∙ l))
  overflow-keeps drop_oldest q result m row n l p =
      let f = λ (r : WaterfallQueuedRow Row Metadata). r.row in
      let same = length-map f q.rows in
      let one = length-append (rows_of q) (row ∷ []) in
      let k : length (rows_of q ++ row ∷ []) - n ≡ 1 = omega arith in
      map-append f (drop 1 q.rows) _
      ∙ ap (λ xs. xs ++ row ∷ []) (map-drop f 1 q.rows)
      ∙ sym (drop-append 1 (rows_of q) (row ∷ []) (omega arith))
      ∙ ap (λ j. drop j (rows_of q ++ row ∷ [])) (sym k)

  push_row-keeps :
      (q : WaterfallRowQueue Row Metadata) (result : PushResult) (m : Metadata) (row : Row)
      → length q.rows ≤ q.config.max_queued_rows
      → rows_of (push_row q result m row).0
        ≡ keep q.config.overflow_policy q.config.max_queued_rows (rows_of q ++ row ∷ [])
  unfolding push_row
  push_row-keeps q result m row l =
      let same = length-map (λ (r : WaterfallQueuedRow Row Metadata). r.row) q.rows in
      let one = length-append (rows_of q) (row ∷ []) in
      let policy = q.config.overflow_policy in
      let max_rows = q.config.max_queued_rows in
      let few = length-keep policy max_rows (rows_of q ++ row ∷ []) in
      elim (Bool-cases (q.config.max_queued_rows == 0)) [
        | inl none' ↦ rw none' (
            length-zero (rows_of q) (ground arith)
            ∙ sym
                (length-zero (keep policy max_rows (rows_of q ++ row ∷ [])) (ground (arith, few))))
        | inr some' ↦ elim (Bool-cases (leb q.config.max_queued_rows (length q.rows))) [
          | inr room ↦
              rw (some', room)
                (rows_of-append q m row
                  ∙ sym
                      (keep-all q.config.overflow_policy q.config.max_queued_rows _ (ground arith)))
          | inl full ↦
              rw (some', full)
                (overflow-keeps q.config.overflow_policy _ _ m row q.config.max_queued_rows
                  (ground arith) (ground arith))
        ]
      ]

  overflow-config :
      (policy : WaterfallOverflowPolicy) (q : WaterfallRowQueue Row Metadata) (result : PushResult)
      (m : Metadata) (row : Row)
      → (overflow_row policy q result m row).0.config ≡ q.config
  overflow-config drop_oldest q result m row = refl
  overflow-config drop_newest q result m row = refl

  push_row-config :
      (q : WaterfallRowQueue Row Metadata) (result : PushResult) (m : Metadata) (row : Row)
      → (push_row q result m row).0.config ≡ q.config
  unfolding push_row
  push_row-config q result m row =
      if-elim (λ (x : WaterfallRowQueue Row Metadata × PushResult). x.0.config ≡ q.config)
        (q.config.max_queued_rows == 0) _ _ (λ _. refl)
        (λ _.
          if-elim (λ (x : WaterfallRowQueue Row Metadata × PushResult). x.0.config ≡ q.config)
            (leb q.config.max_queued_rows (length q.rows)) _ _
            (λ _. overflow-config q.config.overflow_policy _ _ m row) (λ _. refl))

  push_each-keeps :
      (q : WaterfallRowQueue Row Metadata) (c : WaterfallRowQueueConfig) (result : PushResult)
      (m : Metadata) (rows : List Row)
      → q.config ≡ c
      → length q.rows ≤ c.max_queued_rows
      → rows_of (push_each q result m rows).0
        ≡ keep c.overflow_policy c.max_queued_rows (rows_of q ++ rows)
  push_each-keeps q c result m [] e l =
      let same = length-map (λ (r : WaterfallQueuedRow Row Metadata). r.row) q.rows in
      sym (append-nil (rows_of q))
      ∙ sym (
          keep-all c.overflow_policy c.max_queued_rows (rows_of q ++ [])
            (omega (arith, same, length-append (rows_of q) [])))
  push_each-keeps q c result m (row ∷ rows) e l =
      let q' = (push_row q result m row).0 in
      let policy = c.overflow_policy in
      let n = c.max_queued_rows in
      let kept : rows_of q' ≡ keep policy n (rows_of q ++ row ∷ []) =
        push_row-keeps q result m row
          (subst (λ (x : WaterfallRowQueueConfig). length q.rows ≤ x.max_queued_rows) (sym e) l)
        ∙ ap
            (λ (x : WaterfallRowQueueConfig).
              keep x.overflow_policy x.max_queued_rows (rows_of q ++ row ∷ []))
            e in
      let same = length-map (λ (r : WaterfallQueuedRow Row Metadata). r.row) q'.rows in
      push_each-keeps q' c (push_row q result m row).1 m rows (push_row-config q result m row ∙ e)
        (omega (arith, same, ap length kept, length-keep policy n (rows_of q ++ row ∷ [])))
      ∙ ap (λ xs. keep policy n (xs ++ rows)) kept
      ∙ keep_idem policy n (rows_of q ++ row ∷ []) rows
      ∙ ap (keep policy n) (append_assoc (rows_of q) (row ∷ []) rows)

  -- On a queue that holds no more than its maximum, `pushRows` leaves, of the rows that were there
  -- followed by the new ones, the last ones up to the maximum where the policy drops the oldest, and
  -- the first ones where it drops the newest.
  pub push_rows-keeps :
      (q : WaterfallRowQueue Row Metadata) (rows : List Row) (m : Metadata)
      → length q.rows ≤ q.config.max_queued_rows
      → rows_of (push_rows q rows m).0
        ≡ keep q.config.overflow_policy q.config.max_queued_rows (rows_of q ++ rows)
  unfolding push_rows
  push_rows-keeps q rows m l = push_each-keeps q q.config _ m rows refl l
