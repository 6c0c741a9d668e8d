-- ===== src/Rules/Window/Decides.antt =====
-- firstDistinctWindow finds a window exactly when there is one.
use mathlib.Core.List.{cons-ne-nil, head?}
use open_chain.Prelude.{
  ℕ, ◌+◌, ◌-◌, ◌≤◌, ◌<◌, ◌≡◌, ◌≢◌, refl, ap, sym, ◌∙◌, Bool, none, some, List, [], ◌∷◌, ◌++◌, map,
  Text, ltb, leb, length, All, arith, Bool-cases, Option-cases, inl, inr,
}
use mathlib.Core.Path.{subst}
use open_chain.Prelude.Sets.{
  contains, distinct_texts, distinct_beside, distinct_beside-nil, distinct_beside_new,
}
use open_chain.Transfers.{Transfer}
use open_chain.Rules.Window.{counterpart_of, see, window_from, first_distinct_window}

-- How many different counterparts transfers have.
abbrev pub distinct : Bool → List Transfer → ℕ
distinct inbound ws = distinct_texts (map (counterpart_of inbound) ws)

-- What the map of the loop holds after the transfers.
abbrev seen_by : Bool → List Text → List Transfer → List Text
seen_by inbound seen [] = seen
seen_by inbound seen (x ∷ xs) = seen_by inbound (see (counterpart_of inbound x) seen) xs

-- The map gains one key for each counterpart that it did not hold.
length-seen_by :
    (inbound : Bool) (ws : List Transfer) (seen : List Text)
    → length (seen_by inbound seen ws)
      ≡ length seen + distinct_beside seen (map (counterpart_of inbound) ws)
unfolding see
length-seen_by inbound [] seen = omega arith
length-seen_by inbound (x ∷ xs) seen =
    let k = counterpart_of inbound x in
    elim (Bool-cases (contains k seen)) [
      | inl e ↦ rw e (ground (arith, e, length-seen_by inbound xs seen))
      | inr e ↦ rw e (
          ground (
            arith,
            e,
            length-seen_by inbound xs (k ∷ seen),
            distinct_beside_new k seen e (map (counterpart_of inbound) xs),
          ))
    ]

length-seen_by-distinct :
    (inbound : Bool) (ws : List Transfer) → length (seen_by inbound [] ws) ≡ distinct inbound ws
length-seen_by-distinct inbound ws =
    omega
      (arith, length-seen_by inbound ws [], distinct_beside-nil (map (counterpart_of inbound) ws))

-- Every transfer is at most `duration` after the time `start`.
abbrev pub InTime : ℕ → ℕ → List Transfer → Type 0
InTime duration start = All (λ t. t.block_timestamp - start ≤ duration)

module _ (inbound : Bool) (minimum duration : ℕ) where
  -- What a found window is, of a slice that begins with it.
  abbrev Found : ℕ → List Text → List Transfer → List Transfer → ℕ → Type 0
  Found start seen xs w n =
      (rest : List Transfer) × (xs ≡ w ++ rest)
      × InTime duration start w
      × (n ≡ length (seen_by inbound seen w))
      × (minimum ≤ n)
      × (w ≢ [])

  Found-cons :
      (start : ℕ) (seen : List Text) (x : Transfer) (xs w : List Transfer) (n : ℕ)
      → x.block_timestamp - start ≤ duration
      → Found start (see (counterpart_of inbound x) seen) xs w n
      → Found start seen (x ∷ xs) (x ∷ w) n
  Found-cons start seen x xs w n t (rest, e, ts, count, enough, ne) =
      (rest, ap (◌∷◌ x) e, (t, ts), count, enough, cons-ne-nil x w)

  window_from_sound :
      (start : ℕ) (seen : List Text) (xs w : List Transfer) (n : ℕ)
      → window_from inbound minimum duration start seen xs ≡ some (w, n)
      → Found start seen xs w n
  unfolding window_from
  window_from_sound start seen [] w n h = cc
  window_from_sound start seen (x ∷ xs) w n h =
      let seen' = see (counterpart_of inbound x) seen in
      elim (Bool-cases (ltb duration (x.block_timestamp - start))) [
        | inl late ↦ absurd (ground (arith, h, late))
        | inr soon ↦ elim (Bool-cases (leb minimum (length seen'))) [
          | inl enough ↦
              let ew : x ∷ [] ≡ w = ground (arith, h, soon, enough) in
              let en : length seen' ≡ n = ground (arith, h, soon, enough) in
              rw (← ew, ← en) (xs, refl, (ground arith, tt), refl, ground arith, cons-ne-nil x [])
          | inr few ↦ elim (Option-cases (window_from inbound minimum duration start seen' xs)) [
            | inl none_left ↦ absurd (ground (arith, h, soon, few, none_left))
            | inr ((w', n'), e) ↦
                let ew : x ∷ w' ≡ w = ground (arith, h, soon, few, e) in
                let en : n' ≡ n = ground (arith, h, soon, few, e) in
                rw (← ew, ← en)
                  (Found-cons start seen x xs w' n' (ground arith)
                    (window_from_sound start seen' xs w' n' e))
          ]
        ]
      ]

  window_from_complete :
      (start : ℕ) (seen : List Text) (w rest : List Transfer)
      → window_from inbound minimum duration start seen (w ++ rest) ≡ none
      → InTime duration start w
      → w ≢ []
      → length (seen_by inbound seen w) < minimum
  unfolding window_from
  window_from_complete start seen [] rest h t ne = absurd (ne refl)
  window_from_complete start seen (x ∷ []) rest h (tx, t) ne = ground arith
  window_from_complete start seen (x ∷ y ∷ w) rest h (tx, t) ne =
      window_from_complete start (see (counterpart_of inbound x) seen) (y ∷ w) rest (ground arith) t
        (cons-ne-nil y w)

  at_once :
      (x : Transfer) (xs w : List Transfer) (n : ℕ)
      → Found x.block_timestamp [] (x ∷ xs) w n
      → (before after : List Transfer) × (y : Transfer) × (x ∷ xs ≡ before ++ (w ++ after))
        × (head? w ≡ some y)
        × InTime duration y.block_timestamp w
        × (n ≡ distinct inbound w)
        × (minimum ≤ n)
  at_once x xs [] n (rest, e, t, count, enough, ne) = absurd (ne refl)
  at_once x xs (y ∷ w) n (rest, e, t, count, enough, ne) =
      let same_first : x ≡ y = cc in
      let exact = count ∙ length-seen_by-distinct inbound (y ∷ w) in
      ([], rest, x, e, ap some (sym same_first), t, exact, enough)

  -- A window that is found is a run of the group's consecutive transfers, each at most `duration`
  -- after the first of them, whose distinct counterparts are counted exactly and are enough.
  pub first_distinct_window_sound :
      (group w : List Transfer) (n : ℕ)
      → first_distinct_window inbound minimum duration group ≡ some (w, n)
      → (before after : List Transfer) × (x : Transfer) × (group ≡ before ++ (w ++ after))
        × (head? w ≡ some x)
        × InTime duration x.block_timestamp w
        × (n ≡ distinct inbound w)
        × (minimum ≤ n)
  unfolding first_distinct_window
  first_distinct_window_sound [] w n h = cc
  first_distinct_window_sound (x ∷ xs) w n h =
      elim (Option-cases (window_from inbound minimum duration x.block_timestamp [] (x ∷ xs))) [
        | inl e ↦
            let later : first_distinct_window inbound minimum duration xs ≡ some (w, n) =
              ground (arith, h, e) in
            let (before, after, y, split, first, t, count, enough) =
              first_distinct_window_sound xs w n later in
            (x ∷ before, after, y, ap (◌∷◌ x) split, first, t, count, enough)
        | inr ((w', n'), e) ↦
            let ew : w' ≡ w = ground (arith, h, e) in
            let en : n' ≡ n = ground (arith, h, e) in
            rw (← ew, ← en)
              (at_once x xs w' n' (window_from_sound x.block_timestamp [] (x ∷ xs) w' n' e))
      ]

  -- If none is found, no run of consecutive transfers within `duration` of its first has enough
  -- distinct counterparts.
  pub first_distinct_window_complete :
      (before w after : List Transfer) (x : Transfer)
      → first_distinct_window inbound minimum duration (before ++ (x ∷ w ++ after)) ≡ none
      → InTime duration x.block_timestamp (x ∷ w)
      → distinct inbound (x ∷ w) < minimum
  unfolding first_distinct_window
  first_distinct_window_complete [] w after x h t =
      elim (Option-cases
        (window_from inbound minimum duration x.block_timestamp [] (x ∷ w ++ after))) [
          | inl e ↦
              subst (λ n. n < minimum) (length-seen_by-distinct inbound (x ∷ w))
                (window_from_complete x.block_timestamp [] (x ∷ w) after e t (cons-ne-nil x w))
          | inr (r, e) ↦ absurd (ground (arith, h, e))
        ]
  first_distinct_window_complete (y ∷ before) w after x h t =
      first_distinct_window_complete before w after x (ground arith) t
