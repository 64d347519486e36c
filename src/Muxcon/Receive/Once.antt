-- ===== src/Muxcon/Receive/Once.antt =====
-- Any frames in any order, at any times, one after another, through the handler of openmux/server/adapters/muxcon.py.
use openmux_server.Base.{
  ℕ, suc, ◌+◌, ◌-◌, ◌<◌, ◌≡◌, refl, sym, subst, ◌⊎◌, Text, same, same_refl, true, false, Option,
  none, some, List, [], ◌∷◌, ◌++◌, arith, ◌==◌, ltb, leb, length, Option-cases, Bool-cases, inl,
  inr, All,
}
use openmux_server.Muxcon.Numbered.{Numbered, put, lowest, All-put}
use openmux_server.Muxcon.Receive.{
  Rx, Wait, flushing, Item, Conn, DataFrame, to_end, arrive, accept, fresh_rx,
  maybe_resync_peer_generation, handle_inbound_data, flush_stuck_gap, flush_from,
}
use openmux_server.Muxcon.Receive.Rounds.{rounds-none}
use openmux_server.Muxcon.Receive.Rising.{
  IsRising, IsInOrder, IsResting, rounds-IsResting, Resumed, resume-InOrder, at, AllFrom,
  IsRising-below, IsRising-append, AllFrom-lowest, lowest-le, lowest_ge,
}

abbrev Ready : Text → Option Wait × Rx → Type 0
Ready i (none, st) = IsResting i st
Ready i (some w, st) = IsInOrder i (at w) st

to_end-IsResting : (i : Text) (r : Option Wait × Rx) → Ready i r → IsResting i (to_end r).1
unfolding to_end
to_end-IsResting i (none, st) h =
    subst (λ q. IsResting i q.1) (sym (rounds-none (suc (length st.buffer)) st)) h
to_end-IsResting i (some w, st) h = rounds-IsResting i (suc (length st.buffer)) w st h (omega arith)

module _ (i : Text) (st : Rx) (r : IsResting i st) where
  on_time_InOrder :
      (x : Item)
      → IsInOrder i
          (st.expected + 1)
          (record st { delivered = st.delivered ++ (st.expected, x) ∷ [] })
  on_time_InOrder x = record {
    rising =
        IsRising-append 1 st.expected (st.expected + 1) x st.delivered r.order.rising (omega arith);
    later = r.beyond;
    known = r.order.known;
  }

  early_IsResting :
      (k : ℕ) (x : Item) (g : Option ℕ)
      → st.expected < k
      → IsResting i (record st { buffer = put k x st.buffer; gap_since = g })
  early_IsResting k x g h = record {
    order = record {
      rising = r.order.rising;
      later = All-put _ k x st.buffer (omega arith) r.order.later;
      known = r.order.known;
    };
    beyond = All-put _ k x st.buffer (omega arith) r.beyond;
  }

Resumed-Ready :
    (i : Text) (st : Rx) (w : Wait) (r : Option Wait × Rx) → Resumed i st w r → Ready i r
Resumed-Ready i st w r (inl (st', e, q)) = subst (Ready i) (sym e) q
Resumed-Ready i st w r (inr (v, st', e, q, lt)) = subst (Ready i) (sym e) q

flush_from-Ready :
    (i : Text) (st : Rx) (d : Numbered Item)
    → d ≡ st.buffer
    → AllFrom (st.expected + 1) d
    → IsResting i st
    → Ready i (flush_from d st)
flush_from-Ready i st [] e a r = record {
  order = record { rising = r.order.rising; later = r.order.later; known = r.order.known };
  beyond = r.beyond;
}
flush_from-Ready i st ((k, x) ∷ d) e a r =
    let st' : Rx = record st { gap_since = none } in
    let o : IsInOrder i (lowest k d) st' = record {
      rising =
          IsRising-below 1 st.expected (lowest k d) st.delivered r.order.rising
            (omega (arith, lowest_ge (st.expected + 1) k d a.0 a.1));
      later = subst (AllFrom (lowest k d)) e (lowest-le k d, AllFrom-lowest k d);
      known = r.order.known;
    } in
    Resumed-Ready i st' (flushing (lowest k d)) _ (resume-InOrder i st' (flushing (lowest k d)) o)

flush-Ready : (i : Text) (st : Rx) → IsResting i st → Ready i (flush_stuck_gap st)
unfolding flush_stuck_gap
flush-Ready i st r = flush_from-Ready i st st.buffer refl r.beyond r

above : (a b : ℕ) → ltb a b ≡ false → (a == b) ≡ false → b < a
above a b h e = ground arith

same_seq : (a b : ℕ) → (b == a) ≡ true → a ≡ b
same_seq a b e = ground arith

accept-Ready :
    (i : Text) (stuck now : ℕ) (f : DataFrame) (st : Rx)
    → IsResting i st
    → Ready i (accept stuck now f st)
unfolding accept
accept-Ready i stuck now f st r = elim (Bool-cases (ltb f.seq st.expected)) [
  | inl h ↦ rw h r
  | inr h ↦ elim (Bool-cases (f.seq == st.expected)) [
    | inl e ↦
        rw (h, e)
          (subst
            (λ k. IsInOrder i (k + 1) (record st { delivered = st.delivered ++ (k, f.item) ∷ [] }))
            (same_seq st.expected f.seq e) (on_time_InOrder i st r f.item))
    | inr e ↦
        rw (h, e)
          (elim (Option-cases st.gap_since) [
            | inl a ↦
                rw a (early_IsResting i st r f.seq f.item (some now) (above f.seq st.expected h e))
            | inr (since, a) ↦ elim (Bool-cases (leb stuck (now - since))) [
              | inl b ↦
                  rw (a, b)
                    (flush-Ready i _ (
                      early_IsResting i st r f.seq f.item (some since)
                        (above f.seq st.expected h e)))
              | inr b ↦
                  rw (a, b)
                    (early_IsResting i st r f.seq f.item (some since) (above f.seq st.expected h e))
            ]
          ])
  ]
]

-- A connection of the peer process `i`, whose name is not empty, that told its name or none.
abbrev pub IsOf : Text → Conn → Type 0
IsOf i c = (same i [] ≡ false) × ((c.peer_instance ≡ some i) ⊎ (c.peer_instance ≡ none))

-- The state with what is known of the peer process.
abbrev pub knowing : Option Text → ℕ → Rx → Rx
knowing id since st = record st { instance_id = id; instance_since = since }

abbrev Resynced : Text → Conn → Rx → Type 0
Resynced i c st =
    (id : Option Text) × (since : ℕ) × (maybe_resync_peer_generation c st
      ≡ (false, knowing id since st))
    × IsResting i (knowing id since st)

pub resync_same : (i : Text) (c : Conn) (st : Rx) → IsOf i c → IsResting i st → Resynced i c st
unfolding maybe_resync_peer_generation same
resync_same [] c st (ne, e) r = cc
resync_same (b ∷ i) c st (ne, inr e) r = (st.instance_id, st.instance_since, rw e refl, r)
resync_same (b ∷ i) c st (ne, inl e) r = elim r.order.known [
  | inl a ↦ (
    some (b ∷ i),
    c.opened_at,
    rw (e, a) refl,
    record {
      order = record { rising = r.order.rising; later = r.order.later; known = inr refl };
      beyond = r.beyond;
    },
  )
  | inr a ↦ (st.instance_id, st.instance_since, rw (e, a) (rw (same_refl (b ∷ i)) refl), r)
]

pub handle-IsResting :
    (i : Text) (stuck now : ℕ) (c : Conn) (f : DataFrame) (st : Rx)
    → IsOf i c
    → IsResting i st
    → IsResting i (handle_inbound_data stuck now c f st)
unfolding handle_inbound_data arrive
handle-IsResting i stuck now c f st of r =
    let q = resync_same i c st of r in
    to_end-IsResting i (arrive stuck now c f st)
      (rw q.2 (accept-Ready i stuck now f (knowing q.0 q.1 st) q.3))

-- A time, the connection and the frame.
abbrev pub Arrival : Type 0
Arrival = ℕ × Conn × DataFrame

unfoldable pub handle_all : ℕ → List Arrival → Rx → Rx
handle_all stuck [] st = st
handle_all stuck ((now, c, f) ∷ as') st =
    handle_all stuck as' (handle_inbound_data stuck now c f st)

abbrev AllOf : Text → List Arrival → Type 0
AllOf i = All (λ (a : Arrival). IsOf i a.1)

handle_all-IsResting :
    (i : Text) (stuck : ℕ) (arrivals : List Arrival) (st : Rx)
    → AllOf i arrivals
    → IsResting i st
    → IsResting i (handle_all stuck arrivals st)
unfolding handle_all
handle_all-IsResting i stuck [] st a r = r
handle_all-IsResting i stuck ((now, c, f) ∷ more) st a r =
    handle_all-IsResting i stuck more (handle_inbound_data stuck now c f st) a.1
      (handle-IsResting i stuck now c f st a.0 r)

pub fresh_rx-IsResting : (i : Text) → IsResting i fresh_rx
fresh_rx-IsResting i = record {
  order = record { rising = omega arith; later = tt; known = inl refl };
  beyond = tt;
}

-- Of one peer process, where each handler of a frame comes to its end before the next one starts:
-- whatever frames come in, by whatever of its connections, in any order and at any times, so that
-- gaps are given up too, the numbers that are delivered go up, so no frame is delivered twice, and
-- all are below the number that is expected next.
pub handle_all-IsRising :
    (i : Text) (stuck : ℕ) (arrivals : List Arrival)
    → All (λ (a : Arrival). IsOf i a.1) arrivals
    → IsRising 1
        (handle_all stuck arrivals fresh_rx).delivered
        (handle_all stuck arrivals fresh_rx).expected
handle_all-IsRising i stuck arrivals a =
    (handle_all-IsResting i stuck arrivals fresh_rx a (fresh_rx-IsResting i)).order.rising
