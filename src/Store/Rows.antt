-- ===== src/Store/Rows.antt =====
-- Reads of `orders` after its writes.
use agentpit.Prelude.{
  any, false, ◌&&◌, ℕ, ◌≡◌, refl, Bool, Option, none, some, List, [], ◌∷◌, ◌++◌, ◌==◌, ==_iff,
  arith, if◌then◌else◌,
}
use agentpit.Store.{OrderStatus, set_status, live_order, OrderRow, find, update_where}

abbrev by_id : ℕ → OrderRow → Bool
by_id i row = row.order_id == i

-- A row that is added at the end is found where no row of its id stands before it.
pub find-append :
    (i : ℕ) (rows : List OrderRow) (row : OrderRow)
    → find (by_id i) (rows ++ row ∷ []) ≡ (elim (find (by_id i) rows) as (λ _. Option OrderRow) [
      | none ↦ if row.order_id == i then some row else none
      | some old ↦ some old
    ])
find-append i [] row = refl
find-append i (x ∷ rows) row = ground (arith, find-append i rows row)

abbrev pub map_row : (OrderRow → OrderRow) → Option OrderRow → Option OrderRow
map_row f none = none
map_row f (some r) = some (f r)

-- An update by id changes the row of that id and no other.
pub find-update_where :
    (i j : ℕ) (f : OrderRow → OrderRow) (rows : List OrderRow)
    → ((r : OrderRow) → (f r).order_id ≡ r.order_id)
    → find (by_id i) (update_where (by_id j) f rows)
      ≡ (if i == j then map_row f (find (by_id i) rows) else find (by_id i) rows)
find-update_where i j f [] h = ground arith
find-update_where i j f (x ∷ rows) h =
    ground (arith, find-update_where i j f rows h, h x, ==_iff x.order_id j)

-- What is found has the id that was asked for.
pub find_id :
    (i : ℕ) (rows : List OrderRow) {r : OrderRow} → find (by_id i) rows ≡ some r → r.order_id ≡ i
find_id i [] e = cc
find_id i (x ∷ rows) {r} e = ground (arith, find_id i rows {r = r}, ==_iff x.order_id i)

-- An update under a test of its own leaves a row that fails the test.
pub find-update_by :
    (i : ℕ) (p : OrderRow → Bool) (f : OrderRow → OrderRow) (rows : List OrderRow)
    → ((r : OrderRow) → (f r).order_id ≡ r.order_id)
    → find (by_id i) (update_where p f rows)
      ≡ map_row (λ r. if p r then f r else r) (find (by_id i) rows)
find-update_by i p f [] h = refl
find-update_by i p f (x ∷ rows) h = ground (arith, find-update_by i p f rows h, h x)

-- An update that cancels the live rows under a test of the order leaves none of them live.
pub cancelled_rows :
    (now : ℕ) (p : OrderRow → Bool) (rows : List OrderRow)
    → ((row : OrderRow) → p (set_status OrderStatus.cancelled row) ≡ p row)
    → any
        (λ row. p row && live_order now row)
        (update_where (λ row. p row && live_order now row) (set_status OrderStatus.cancelled) rows)
      ≡ false
cancelled_rows now p [] h = refl
cancelled_rows now p (row ∷ rows) h = ground (arith, cancelled_rows now p rows h, h row)
