-- ===== src/Muxcon/Receive/Settled.antt =====
-- What the handler for DATA frames of openmux/server/adapters/muxcon.py leaves, when it runs without
-- a break and no gap is given up.
use openmux_server.Base.{
  ℕ, zero, suc, ◌+◌, ◌<◌, ◌≡◌, refl, ap, ◌∙◌, Bool, true, false, ◌||◌, none, some, List, [], ◌∷◌,
  ◌++◌, arith, ◌==◌, leb, length, take, Option-cases, inl, inr,
}
use openmux_server.Muxcon.Numbered.{
  Numbered, find, has, put, without, has-find, find-put, find-without, length-without-lt,
}
use openmux_server.Muxcon.Receive.{Rx, Wait, draining, Item, resume, rounds, stop_drain}
use openmux_server.Muxcon.Receive.Rounds.{rounds-none}
use openmux_server.Muxcon.Receive.Order.{
  item_at, number, AllBeyond, Ordered, AllBeyond-find, AllBeyond-without, AllBeyond-next,
  item_at-bound, number-take_next,
}

-- The frame of a number is delivered, with the first `n`, or buffered.
unfoldable pub within : ℕ → ℕ → Rx → Bool
within n k st = leb k n || has k st.buffer

-- A state in which no handler waits.
pub record IsSettled (sent : List Item) (m : ℕ) (st : Rx) : Type 0 where
  pub ordered : Ordered sent m st
  pub next : st.expected ≡ m + 1
  pub missing : find (m + 1) st.buffer ≡ none

find-without_self : (k : ℕ) (d : Numbered Item) → find k (without k d) ≡ none
find-without_self k d = ground (arith, find-without k k d)

has-without_ne : (k j : ℕ) (d : Numbered Item) → (j == k) ≡ false → has j (without k d) ≡ has j d
has-without_ne k j d e = ground (arith, has-find j d, has-find j (without k d), find-without k j d)

pub has-put : (k j : ℕ) (x : Item) (d : Numbered Item) → has j (put k x d) ≡ ((k == j) || has j d)
has-put k j x d = ground (arith, has-find j d, has-find j (put k x d), find-put k j x d)

flip : (n : ℕ) → n + 1 ≡ 1 + n
flip n = omega arith

one_more : (n : ℕ) → suc n ≡ n + 1
one_more n = omega arith

module _ (sent : List Item) (n : ℕ) (x : Item) (st : Rx) (o : Ordered sent n st)
    (here : item_at (n + 1) sent ≡ some x) where
  -- The next item is routed, and `d` is what is left in the buffer.
  pub routed_next :
      (d : Numbered Item)
      → AllBeyond n sent d
      → find (n + 1) d ≡ none
      → Ordered sent (n + 1) (record st { delivered = st.delivered ++ (n + 1, x) ∷ []; buffer = d })
  routed_next d a e = record {
    sofar =
        ap (λ l. l ++ (n + 1, x) ∷ []) o.sofar
        ∙ (ap (λ m. number 1 (take n sent) ++ (m, x) ∷ []) (flip n)
            ∙ (number-take_next 1 n sent x here ∙ ap (λ m. number 1 (take m sent)) (one_more n)));
    bound = omega (arith, item_at-bound n sent x here);
    beyond = AllBeyond-next n sent d a e;
  }

abbrev pub Drained : List Item → ℕ → Rx → Rx → Type 0
Drained sent n st st' =
    (m : ℕ) × IsSettled sent m st' × ((k : ℕ) → within n k st ≡ true → within m k st' ≡ true)

within-next :
    (n k : ℕ) (st : Rx)
    → within n k st ≡ true
    → leb k (n + 1) || has k (without (n + 1) st.buffer) ≡ true
unfolding within
within-next n k st h = ground (arith, has-without_ne (n + 1) k st.buffer)

abbrev popped : ℕ → Item → Rx → Rx
popped n x st = record st {
  delivered = st.delivered ++ (n + 1, x) ∷ [];
  buffer = without (n + 1) st.buffer;
}

rounds-some :
    (fuel : ℕ) (w : Wait) (st : Rx) → rounds (suc fuel) (some w, st) ≡ rounds fuel (resume w st)
unfolding rounds
rounds-some fuel w st = refl

stops :
    (k : ℕ) (st : Rx) → find k st.buffer ≡ none → resume (draining k) st ≡ (none, stop_drain k st)
unfolding resume
stops k st e = rw e refl

takes :
    (n : ℕ) (x : Item) (st : Rx)
    → find (n + 1) st.buffer ≡ some x
    → resume (draining (n + 1)) st ≡ (some (draining (n + 1 + 1)), popped n x st)
unfolding resume
takes n x st e = rw e refl

pub drain-Drained :
    (sent : List Item) (fuel n : ℕ) (st : Rx)
    → Ordered sent n st
    → length st.buffer < fuel
    → Drained sent n st (rounds fuel (some (draining (n + 1)), st)).1
unfolding within
drain-Drained sent zero n st o h = absurd (omega arith)
drain-Drained sent (suc fuel) n st o h = elim (Option-cases (find (n + 1) st.buffer)) [
  | inl e ↦
      rw
        (
          rounds-some fuel (draining (n + 1)) st,
          stops (n + 1) st e,
          rounds-none fuel (stop_drain (n + 1) st),
        )
        (
          n,
          record {
            ordered = record { sofar = o.sofar; bound = o.bound; beyond = o.beyond };
            next = refl;
            missing = e;
          },
          (λ k q. q),
        )
  | inr (x, e) ↦
      let rest : Drained sent (n + 1) (popped n x st)
          (rounds fuel (some (draining (n + 1 + 1)), popped n x st)).1 =
        drain-Drained sent fuel (n + 1) (popped n x st)
          (routed_next sent n x st o (AllBeyond-find n sent st.buffer (n + 1) x o.beyond e).1
            (without (n + 1) st.buffer) (AllBeyond-without n (n + 1) sent st.buffer o.beyond)
            (find-without_self (n + 1) st.buffer))
          (omega (arith, length-without-lt (n + 1) x st.buffer e)) in
      rw (rounds-some fuel (draining (n + 1)) st, takes n x st e)
        (rest.0, rest.1, λ k q. rest.2 k (within-next n k st q))
]
