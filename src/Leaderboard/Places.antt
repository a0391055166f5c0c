-- ===== src/Leaderboard/Places.antt =====
-- services/leaderboard_service.py: the places of `places`.
use agentpit.Prelude.{
  ℕ, suc, ◌+◌, ◌≡◌, refl, ap, ◌∙◌, Bool, true, ◌&&◌, some, List, [], ◌∷◌, ==_iff, if◌then◌else◌, ℤ,
  arith, All, filter,
}
use agentpit.Prelude.Dict.{get, put, get-put, nat_eq}
use agentpit.Leaderboard.{
  LeaderboardRow, by_return, key, ahead, sort_rows, rank_rows, is_ranked, number_from, places,
}
use agentpit.Leaderboard.Ranks.{
  Ranked, NotAbove, is_above_total, is_above_irrefl, All-sort_rows, sum_by-sort_rows,
  sort_rows-Ranked,
}
use agentpit.Leaderboard.Rows.{
  count, OtherThan, Differ, sort_rows-Differ, filter-Differ, filter-Ranked, count-filter,
  All-filter,
}

get-number_from :
    (k a : ℕ) (rs : List LeaderboardRow) (d : List (ℕ × ℕ))
    → All (OtherThan a) rs
    → get (number_from k rs d) a ≡ get d a
unfolding number_from
get-number_from k a [] d h = refl
get-number_from k a (r ∷ rs) d (n, h) =
    get-number_from (suc k) a rs (put r.address k d) h ∙ ground (arith, get-put r.address a k d)

module _ (percent : ℤ → ℕ → ℤ) where
  abbrev goes_before : LeaderboardRow → LeaderboardRow → Bool
  goes_before r x = ahead percent by_return x r

  none_before :
      (r : LeaderboardRow) (xs : List LeaderboardRow)
      → All (NotAbove percent by_return r) xs
      → count (goes_before r) xs ≡ 0
  none_before r [] h = refl
  none_before r (x ∷ xs) (n, h) = ground (arith, none_before r xs h)

  -- A row's number in a ranked list is the first number and the rows ahead of it.
  abbrev IsNumbered : ℕ → List LeaderboardRow → List (ℕ × ℕ) → LeaderboardRow → Type 0
  IsNumbered k ys numbers r = get numbers r.address ≡ some (k + count (goes_before r) ys)

  behind_first :
      (k : ℕ) (y : LeaderboardRow) (ys : List LeaderboardRow) (numbers : List (ℕ × ℕ))
      (rs : List LeaderboardRow)
      → All (OtherThan y.address) rs
      → All (NotAbove percent by_return y) rs
      → All (IsNumbered (suc k) ys numbers) rs
      → All (IsNumbered k (y ∷ ys) numbers) rs
  behind_first k y ys numbers [] o n h = tt
  behind_first k y ys numbers (r ∷ rs) (o, os) (n, ns) (h, hs) =
      let before_r = is_above_total (key percent by_return r) (key percent by_return y) o n in
      (ground (arith, before_r, h), behind_first k y ys numbers rs os ns hs)

  own_number : (k a : ℕ) (d : List (ℕ × ℕ)) → get (put a k d) a ≡ some k
  own_number k a d = ground (arith, get-put a a k d, ==_iff a a)

  first_number :
      (k : ℕ) (y : LeaderboardRow) (ys : List LeaderboardRow)
      → All (NotAbove percent by_return y) ys
      → k ≡ k + count (goes_before y) (y ∷ ys)
  first_number k y ys h =
      ground (arith, is_above_irrefl (key percent by_return y), none_before y ys h)

  numbered :
      (k : ℕ) (ys : List LeaderboardRow) (d : List (ℕ × ℕ))
      → Ranked percent by_return ys
      → Differ ys
      → All (IsNumbered k ys (number_from k ys d)) ys
  unfolding number_from
  numbered k [] d h f = tt
  numbered k (y ∷ ys) d (h, hs) (f, fs) = (
    get-number_from (suc k) y.address ys (put y.address k d) f
        ∙ (own_number k y.address d ∙ ap (λ n. some n) (first_number k y ys h)),
    behind_first k y ys (number_from (suc k) ys (put y.address k d)) ys f h
        (numbered (suc k) ys (put y.address k d) hs fs),
  )

-- What `places` gives a row: one more than the ranked rows that are ahead of it by their returns.
abbrev pub HasPlace : (ℤ → ℕ → ℤ) → List LeaderboardRow → LeaderboardRow → Type 0
HasPlace percent rows r =
    is_ranked r ≡ true
    → get (places percent rows) r.address
      ≡ some (1 + count (λ x. is_ranked x && ahead percent by_return x r) rows)

sorted_places :
    (percent : ℤ → ℕ → ℤ) (rows xs : List LeaderboardRow)
    → All
        (λ r.
          is_ranked r ≡ true
          → IsNumbered percent 1
              (filter is_ranked (rank_rows percent by_return rows))
              (places percent rows)
              r)
        xs
    → All (HasPlace percent rows) xs
unfolding rank_rows
sorted_places percent rows [] h = tt
sorted_places percent rows (x ∷ xs) (h, hs) = (
  λ ranked.
      h ranked
      ∙ ap (λ n. some (1 + n))
          (count-filter is_ranked (goes_before percent x) (sort_rows (ahead percent by_return) rows)
            ∙ sum_by-sort_rows (ahead percent by_return)
                (λ y. if is_ranked y && goes_before percent x y then 1 else 0) rows),
  sorted_places percent rows xs hs,
)

-- Where no address stands twice, the place of each row with enough markets is one more than the
-- number of such rows whose return is higher, or equal with a higher gain, or with a gain equal too
-- and an address that comes later: whatever the order in which the rows were read.
pub places_lem :
    (percent : ℤ → ℕ → ℤ) (rows : List LeaderboardRow)
    → Differ rows
    → All (HasPlace percent rows) rows
unfolding places rank_rows
places_lem percent rows d =
    let above = ahead percent by_return in
    let sorted = sort_rows above rows in
    let ranked = filter is_ranked sorted in
    let in_order =
      filter-Ranked percent is_ranked sorted (sort_rows-Ranked percent by_return rows) in
    let differ = filter-Differ is_ranked sorted (sort_rows-Differ above rows d) in
    let given = numbered percent 1 ranked [] in_order differ in
    sorted_places percent rows rows
      (All-sort_rows above _ rows (All-filter _ is_ranked sorted given))
