-- ===== src/Trace/Order.antt =====
-- The trace buffer is bounded and keeps the newest calls.
use flux7_mesh.Base.{
  ℕ, zero, suc, ◌-◌, ◌≤◌, ◌≡◌, refl, ap, ◌⊎◌, inl, inr, true, false, none, some, List, [], ◌∷◌,
  ◌++◌, arith, ltb, Text, Bool-cases, length, length-append, length-drop, drop, All,
}
use flux7_mesh.Trace.{
  Entry, Store, with_parent, stamped, newest, record_entry, update_last, revised, has_trace,
}

module _ {N : Type 0} where
  drop-append :
      (n : ℕ) (xs ys : List (Entry N)) → n ≤ length xs → drop n (xs ++ ys) ≡ drop n xs ++ ys
  drop-append zero xs ys h = refl
  drop-append (suc n) [] ys h = absurd (omega arith)
  drop-append (suc n) (x ∷ xs) ys h = drop-append n xs ys (omega arith)

  newest-append :
      (m : ℕ) (es : List (Entry N)) (e : Entry N)
      → length es ≤ m
      → 1 ≤ m
      → (length (newest m (es ++ e ∷ [])) ≤ m)
        × ((n : ℕ) × (n ≤ 1) × (newest m (es ++ e ∷ []) ≡ drop n es ++ e ∷ []))
  newest-append m es e bound room = elim (Bool-cases (ltb m (length (es ++ e ∷ [])))) [
    | inl full ↦
        let is_one : length (es ++ e ∷ []) - m ≡ 1 = ground (arith, length-append es (e ∷ [])) in
        (
          rw full (
              omega (
                arith,
                length-drop (length (es ++ e ∷ []) - m) (es ++ e ∷ []),
                length-append es (e ∷ []),
                is_one,
              )),
          (
            1,
            omega arith,
            rw (full, is_one)
                (drop-append 1 es (e ∷ []) (ground (arith, length-append es (e ∷ [])))),
          ),
        )
    | inr fits ↦ (ground arith, (0, omega arith, rw fits refl))
  ]

  -- After a call is recorded in a buffer that has room for one entry at least, the buffer holds no
  -- more than its size if it did so before, it ends in the new entry, and what stands before it is
  -- the old buffer without its oldest entries.
  pub record_entry_outcome :
      (now : ℕ) (fresh : Text) (e : Entry N) (s : Store N)
      → length s.entries ≤ s.max_size
      → 1 ≤ s.max_size
      → let s' = record_entry now fresh e s in
        (length s'.entries ≤ s.max_size)
        × ((n : ℕ) × (n ≤ 1)
            × (s'.entries ≡ drop n s.entries ++ with_parent s.entries (stamped now fresh e) ∷ []))
  unfolding record_entry
  record_entry_outcome now fresh e s bound room =
      newest-append s.max_size s.entries (with_parent s.entries (stamped now fresh e)) bound room

  -- An update changes one entry at most and keeps the order of all.
  pub update_last_outcome :
      (id : Text) (change : Entry N → Entry N) (es : List (Entry N))
      → ((update_last id change es ≡ none) × All (λ e. has_trace id e ≡ false) es)
        ⊎ ((before : List (Entry N)) × (e : Entry N) × (after : List (Entry N)) × (es
              ≡ before ++ e ∷ after)
            × (has_trace id e ≡ true)
            × All (λ e. has_trace id e ≡ false) after
            × (update_last id change es ≡ some (before ++ revised change e ∷ after)))
  unfolding update_last
  update_last_outcome id change [] = inl (refl, tt)
  update_last_outcome id change (e ∷ es) = elim (update_last_outcome id change es) [
    | inr (before, f, after, same, hit, later, is) ↦
        inr (e ∷ before, f, after, ap (◌∷◌ e) same, hit, later, rw is refl)
    | inl (none_left, quiet) ↦ elim (Bool-cases (has_trace id e)) [
      | inl hit ↦ inr ([], e, es, refl, hit, quiet, rw (none_left, hit) refl)
      | inr miss ↦ inl (rw (none_left, miss) refl, (miss, quiet))
    ]
  ]
