-- ===== src/Dispatcher/Activity.antt =====
-- What the status loop of dispatcher/src/dispatcher.cpp writes about the computors.
use doge_connect.Prelude.{
  ℕ, ltb, if◌then◌else◌, ltb→lt, Bool-cases, length, length-append, get_or, drop, zero, suc, ◌+◌,
  ◌%◌, ◌^◌, ◌≤◌, ◌<◌, ◌≡◌, refl, sym, inl, inr, Bool, ◌&&◌, List, [], ◌∷◌, ◌++◌, arith,
}
use doge_connect.Structs.{DispatcherStats, num_computors}
use doge_connect.ShareValid.Counters.{Balanced, sum}

-- `compShares`, by the index that is its key, and the two counts.
pub record Active : Type 0 where
  pub shares : List (ℕ × ℕ)
  pub total : ℕ
  pub last_hour : ℕ

-- `lastSeen > 0 && (nowEpoch - lastSeen) < 3600`, of times that are not negative.
unfoldable pub seen_lately : (now last_seen : ℕ) → Bool
seen_lately now last_seen = ltb 0 last_seen && ltb now (last_seen + 3600)

-- The body of the loop for one computor.
unfoldable pub add_computor : (now i count last_seen : ℕ) → Active → Active
add_computor now i count last_seen a =
    if ltb 0 count
    then record {
      shares = a.shares ++ (i, count) ∷ [];
      total = a.total + 1;
      last_hour = if seen_lately now last_seen then a.last_hour + 1 else a.last_hour;
    }
    else a

-- The loop from `i` on, over `n` computors.
unfoldable pub computors_from : (now i n : ℕ) → DispatcherStats → Active → Active
computors_from now i zero stats a = a
computors_from now i (suc n) stats a =
    computors_from now (i + 1) n stats (
      add_computor now i (get_or stats.computor_shares i 0) (get_or stats.computor_last_seen i 0) a)

unfoldable pub count_active : ℕ → DispatcherStats → Active
count_active now stats =
    computors_from now 0 num_computors stats (record { shares = []; total = 0; last_hour = 0 })

-- Each entry has the counter of its computor, and that is not zero.
unfoldable pub Lists : DispatcherStats → List (ℕ × ℕ) → Type 0
Lists stats [] = Unit
Lists stats ((i, count) ∷ shares) =
    (count ≡ get_or stats.computor_shares i 0) × (0 < count) × Lists stats shares

unfoldable pub sum_counts : List (ℕ × ℕ) → ℕ
sum_counts [] = 0
sum_counts ((i, count) ∷ shares) = count + sum_counts shares

Lists-append :
    (stats : DispatcherStats) (xs ys : List (ℕ × ℕ))
    → Lists stats xs
    → Lists stats ys
    → Lists stats (xs ++ ys)
unfolding Lists
Lists-append stats [] ys h k = k
Lists-append stats ((i, count) ∷ xs) ys (e, pos, h) k = (e, pos, Lists-append stats xs ys h k)

sum_counts-append : (xs ys : List (ℕ × ℕ)) → sum_counts (xs ++ ys) ≡ sum_counts xs + sum_counts ys
unfolding sum_counts
sum_counts-append [] ys = omega arith
sum_counts-append ((i, count) ∷ xs) ys = omega (arith, sum_counts-append xs ys)

-- What the loop keeps: the counts are those of the entries.
pub record IsTally (stats : DispatcherStats) (a : Active) : Type 0 where
  pub lists : Lists stats a.shares
  pub counted : a.total ≡ length a.shares
  pub within : a.last_hour ≤ a.total

module _ (now : ℕ) (stats : DispatcherStats) where
  add_computor-IsTally :
      (i last_seen : ℕ) (a : Active)
      → IsTally stats a
      → IsTally stats (add_computor now i (get_or stats.computor_shares i 0) last_seen a)
  unfolding add_computor Lists
  add_computor-IsTally i last_seen a t =
      let count = get_or stats.computor_shares i 0 in
      elim (Bool-cases (ltb 0 count)) [
        | inr idle ↦ rw idle t
        | inl busy ↦ rw busy (record {
          lists =
              Lists-append stats a.shares ((i, count) ∷ []) t.lists (refl, ltb→lt 0 count busy, tt);
          counted = omega (arith, t.counted, length-append a.shares ((i, count) ∷ []));
          within = ground (arith, t.within);
        })
      ]

  add_computor-sum :
      (i count last_seen : ℕ) (a : Active)
      → sum_counts (add_computor now i count last_seen a).shares ≡ sum_counts a.shares + count
  unfolding add_computor sum_counts
  add_computor-sum i count last_seen a = elim (Bool-cases (ltb 0 count)) [
    | inr idle ↦ rw idle (ground arith)
    | inl busy ↦ rw busy (omega (arith, sum_counts-append a.shares ((i, count) ∷ [])))
  ]

  computors_from-IsTally :
      (i n : ℕ) (a : Active) → IsTally stats a → IsTally stats (computors_from now i n stats a)
  unfolding computors_from
  computors_from-IsTally i zero a t = t
  computors_from-IsTally i (suc n) a t =
      computors_from-IsTally (i + 1) n _ (add_computor-IsTally i _ a t)

  sum-drop :
      (i : ℕ) (xs : List ℕ)
      → i < length xs
      → sum (drop i xs) ≡ get_or xs i 0 + sum (drop (i + 1) xs)
  unfolding sum
  sum-drop i [] h = absurd (omega arith)
  sum-drop zero (x ∷ xs) h = refl
  sum-drop (suc i) (x ∷ xs) h =
      let e : suc i + 1 ≡ suc (i + 1) = omega arith in rw e (sum-drop i xs (omega arith))

  sum-drop_all : (i : ℕ) (xs : List ℕ) → length xs ≤ i → sum (drop i xs) ≡ 0
  unfolding sum
  sum-drop_all zero [] h = refl
  sum-drop_all zero (x ∷ xs) h = absurd (omega arith)
  sum-drop_all (suc i) [] h = refl
  sum-drop_all (suc i) (x ∷ xs) h = sum-drop_all i xs (omega arith)

  computors_from-sum :
      (i n : ℕ) (a : Active)
      → i + n ≡ length stats.computor_shares
      → sum_counts (computors_from now i n stats a).shares
        ≡ sum_counts a.shares + sum (drop i stats.computor_shares)
  unfolding computors_from
  computors_from-sum i zero a h =
      omega (arith, sum-drop_all i stats.computor_shares (omega (arith, h)))
  computors_from-sum i (suc n) a h =
      let a' =
        add_computor now i (get_or stats.computor_shares i 0) (get_or stats.computor_last_seen i 0)
          a in
      omega (
        arith,
        computors_from-sum (i + 1) n a' (omega (arith, h)),
        add_computor-sum i (get_or stats.computor_shares i 0) (get_or stats.computor_last_seen i 0)
            a,
        sum-drop i stats.computor_shares (omega (arith, h)),
      )

  -- The file has the computors with a share, and their number; those that were seen in the last
  -- hour are some of them. Its counts add up to the solutions accepted, modulo 2 ^ 64, when the
  -- counters are in balance.
  pub count_active-IsTally :
      Balanced 0 stats
      → IsTally stats (count_active now stats)
        × (sum_counts (count_active now stats).shares % 2 ^ 64 ≡ stats.solutions_accepted)
  unfolding count_active Lists sum_counts
  count_active-IsTally balanced =
      let empty : Active = record { shares = []; total = 0; last_hour = 0 } in
      let none_yet : IsTally stats empty = record {
        lists = tt;
        counted = refl;
        within = omega arith;
      } in
      let sum_all = computors_from-sum 0 num_computors empty (sym balanced.computors) in
      (
        computors_from-IsTally 0 num_computors empty none_yet,
        omega (arith, sum_all, balanced.shares),
      )
