-- ===== src/Muxcon/Receive/Order.antt =====
-- The state of the receiver in openmux/server/adapters/muxcon.py, measured by what the peer sent.
use openmux_server.Base.{
  ℕ, zero, suc, ◌+◌, ◌-◌, ◌≤◌, ◌<◌, ◌≡◌, Option, none, some, List, [], ◌∷◌, ◌++◌, arith, ◌==◌,
  length, take, if◌then◌else◌, Bool-cases, inl, inr,
}
use openmux_server.Muxcon.Numbered.{Numbered, find, put, without}
use openmux_server.Muxcon.Receive.{Rx, Item}

-- The item that was sent under a number, from 1 on.
unfoldable pub item_at : ℕ → List Item → Option Item
item_at k [] = none
item_at k (x ∷ xs) = if k == 1 then some x else item_at (k - 1) xs

-- The items with their numbers, from `k` on.
unfoldable pub number : ℕ → List Item → List (ℕ × Item)
number k [] = []
number k (x ∷ xs) = (k, x) ∷ number (k + 1) xs

-- The items of a buffer were sent under their numbers, all of them beyond `n`.
abbrev pub AllBeyond : ℕ → List Item → Numbered Item → Type 0
AllBeyond n sent [] = Unit
AllBeyond n sent ((k, x) ∷ d) = (n < k) × (item_at k sent ≡ some x) × AllBeyond n sent d

-- The first `n` items that were sent are delivered in order, and the buffer holds later ones.
pub record Ordered (sent : List Item) (n : ℕ) (st : Rx) : Type 0 where
  pub sofar : st.delivered ≡ number 1 (take n sent)
  pub bound : n ≤ length sent
  pub beyond : AllBeyond n sent st.buffer

pub AllBeyond-find :
    (n : ℕ) (sent : List Item) (d : Numbered Item) (k : ℕ) (x : Item)
    → AllBeyond n sent d
    → find k d ≡ some x
    → (n < k) × (item_at k sent ≡ some x)
unfolding find
AllBeyond-find n sent [] k x a h = cc
AllBeyond-find n sent ((j, y) ∷ d) k x a h = elim (Bool-cases (j == k)) [
  | inl e ↦ ground (arith, e)
  | inr e ↦ AllBeyond-find n sent d k x a.2 (rw e at h)
]

pub AllBeyond-without :
    (n k : ℕ) (sent : List Item) (d : Numbered Item)
    → AllBeyond n sent d
    → AllBeyond n sent (without k d)
unfolding without
AllBeyond-without n k sent [] a = tt
AllBeyond-without n k sent ((j, y) ∷ d) a = ground (arith, AllBeyond-without n k sent d)

pub AllBeyond-next :
    (n : ℕ) (sent : List Item) (d : Numbered Item)
    → AllBeyond n sent d
    → find (n + 1) d ≡ none
    → AllBeyond (n + 1) sent d
unfolding find
AllBeyond-next n sent [] a h = tt
AllBeyond-next n sent ((j, y) ∷ d) a h = ground (arith, AllBeyond-next n sent d)

pub AllBeyond-put :
    (n k : ℕ) (sent : List Item) (x : Item) (d : Numbered Item)
    → n < k
    → item_at k sent ≡ some x
    → AllBeyond n sent d
    → AllBeyond n sent (put k x d)
unfolding put
AllBeyond-put n k sent x [] lt e a = (lt, e, tt)
AllBeyond-put n k sent x ((j, y) ∷ d) lt e a = ground (arith, AllBeyond-put n k sent x d)

-- Taking one more item.
pub item_at-bound :
    (k : ℕ) (sent : List Item) (x : Item) → item_at (k + 1) sent ≡ some x → k < length sent
unfolding item_at
item_at-bound k [] x h = cc
item_at-bound zero (y ∷ sent) x h = omega arith
item_at-bound (suc k) (y ∷ sent) x h = ground (arith, item_at-bound k sent x)

pub number-take_next :
    (j k : ℕ) (sent : List Item) (x : Item)
    → item_at (k + 1) sent ≡ some x
    → number j (take k sent) ++ (j + k, x) ∷ [] ≡ number j (take (suc k) sent)
unfolding item_at number
number-take_next j k [] x h = cc
number-take_next j zero (y ∷ sent) x h = ground arith
number-take_next j (suc k) (y ∷ sent) x h = ground (arith, number-take_next (j + 1) k sent x)
