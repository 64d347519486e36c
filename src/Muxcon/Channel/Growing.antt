-- ===== src/Muxcon/Channel/Growing.antt =====
-- One more item that is sent over the link of openmux/server/adapters/muxcon.py.
use openmux_server.Base.{
  ℕ, zero, suc, ◌+◌, ◌-◌, ◌≤◌, ◌≡◌, refl, ap, sym, ◌∙◌, some, List, [], ◌∷◌, ◌++◌, arith, length,
  length-append, take,
}
use openmux_server.Muxcon.Numbered.{Numbered}
use openmux_server.Muxcon.Receive.{Rx, Item, DataFrame}
use openmux_server.Muxcon.Receive.Order.{item_at, number, AllBeyond}
use openmux_server.Muxcon.Receive.Settled.{IsSettled}
use openmux_server.Muxcon.Send.{Unacked}
use openmux_server.Muxcon.Channel.{IsReal, IsKept}

item_at-append :
    (k : ℕ) (sent : List Item) (x y : Item)
    → item_at k sent ≡ some y
    → item_at k (sent ++ x ∷ []) ≡ some y
unfolding item_at
item_at-append k [] x y h = cc
item_at-append k (z ∷ sent) x y h = ground (arith, item_at-append (k - 1) sent x y)

pub item_at-last :
    (sent : List Item) (x : Item) → item_at (length sent + 1) (sent ++ x ∷ []) ≡ some x
unfolding item_at
item_at-last [] x = ground arith
item_at-last (z ∷ sent) x = ground (arith, item_at-last sent x)

take-append_le :
    (n : ℕ) (sent more : List Item) → n ≤ length sent → take n (sent ++ more) ≡ take n sent
take-append_le zero sent more h = refl
take-append_le (suc n) [] more h = absurd (omega arith)
take-append_le (suc n) (z ∷ sent) more h = ground (arith, take-append_le n sent more)

AllBeyond-append :
    (n : ℕ) (sent : List Item) (x : Item) (d : Numbered Item)
    → AllBeyond n sent d
    → AllBeyond n (sent ++ x ∷ []) d
AllBeyond-append n sent x [] a = tt
AllBeyond-append n sent x ((k, y) ∷ d) a =
    (a.0, item_at-append k sent x y a.1, AllBeyond-append n sent x d a.2)

pub IsSettled-append :
    (sent : List Item) (m : ℕ) (x : Item) (st : Rx)
    → IsSettled sent m st
    → IsSettled (sent ++ x ∷ []) m st
IsSettled-append sent m x st s = record {
  ordered = record {
    sofar = s.ordered.sofar ∙ ap (number 1) (sym (take-append_le m sent (x ∷ []) s.ordered.bound));
    bound = omega (arith, s.ordered.bound, length-append sent (x ∷ []));
    beyond = AllBeyond-append m sent x st.buffer s.ordered.beyond;
  };
  next = s.next;
  missing = s.missing;
}

pub IsReal-append :
    (sent : List Item) (x : Item) (f : DataFrame) → IsReal sent f → IsReal (sent ++ x ∷ []) f
IsReal-append sent x f h = item_at-append f.seq sent x f.item h

pub IsKept-append :
    (sent : List Item) (x : Item) (e : ℕ × Unacked) → IsKept sent e → IsKept (sent ++ x ∷ []) e
IsKept-append sent x (k, u) h = item_at-append k sent x u.item h
