-- ===== src/Muxcon/Receive/Handled.antt =====
-- One run of the handler for DATA frames of openmux/server/adapters/muxcon.py, without a break and
-- with no gap given up.
use openmux_server.Base.{
  ℕ, suc, ◌+◌, ◌-◌, ◌<◌, ◌≡◌, refl, ap, subst, ◌∙◌, Bool, true, false, Option, none, some, List, [],
  ◌∷◌, ◌++◌, arith, ◌==◌, ltb, leb, length, Option-cases, Bool-cases, inl, inr,
}
use openmux_server.Muxcon.Numbered.{find, put, find-put}
use openmux_server.Muxcon.Receive.{
  Rx, Wait, draining, Item, Conn, DataFrame, rounds, to_end, arrive, accept, fresh_rx,
  maybe_resync_peer_generation, handle_inbound_data,
}
use openmux_server.Muxcon.Receive.Rounds.{rounds-none}
use openmux_server.Muxcon.Receive.Order.{item_at, number, Ordered, AllBeyond-put}
use openmux_server.Muxcon.Receive.Settled.{
  within, IsSettled, has-put, routed_next, Drained, drain-Drained,
}

-- The gap that is open, if one is, is not to be given up yet.
unfoldable pub patient : ℕ → ℕ → Rx → Bool
patient stuck now st = elim st.gap_since [ none ↦ true | some since ↦ ltb (now - since) stuck ]

abbrev pub Handled : List Item → ℕ → Rx → ℕ → Rx → Type 0
Handled sent m st seq st' =
    (m' : ℕ) × IsSettled sent m' st'
    × ((k : ℕ) → within m k st ≡ true → within m' k st' ≡ true)
    × (within m' seq st' ≡ true)

short : (t s : ℕ) → ltb t s ≡ true → leb s t ≡ false
short t s h = ground arith

module _ (stuck now : ℕ) (c : Conn) (f : DataFrame) (st : Rx)
    (same_one : maybe_resync_peer_generation c st ≡ (false, st)) where
  arrives : arrive stuck now c f st ≡ accept stuck now f st
  unfolding arrive
  arrives = rw same_one refl

  late : ltb f.seq st.expected ≡ true → accept stuck now f st ≡ (none, st)
  unfolding accept
  late h = rw h refl

  on_time :
      ltb f.seq st.expected ≡ false
      → (f.seq == st.expected) ≡ true
      → accept stuck now f st ≡ (
        some (draining (f.seq + 1)),
        record st { delivered = st.delivered ++ (f.seq, f.item) ∷ [] },
      )
  unfolding accept
  on_time h e = rw (h, e) refl

  early :
      ltb f.seq st.expected ≡ false
      → (f.seq == st.expected) ≡ false
      → patient stuck now st ≡ true
      → (g : Option ℕ) × (accept stuck now f st
          ≡ (none, record st { buffer = put f.seq f.item st.buffer; gap_since = g }))
  unfolding accept patient
  early h e p = elim (Option-cases st.gap_since) [
    | inl a ↦ (some now, rw (h, e, a) refl)
    | inr (since, a) ↦ (some since, rw (h, e, a) (rw (short (now - since) stuck (rw a at p)) refl))
  ]

module _ (sent : List Item) (m : ℕ) (f : DataFrame) (st : Rx) (s : IsSettled sent m st)
    (real : item_at f.seq sent ≡ some f.item) where
  -- A frame that was delivered before.
  late_Handled : ltb f.seq st.expected ≡ true → Handled sent m st f.seq st
  unfolding within
  late_Handled h = (m, s, (λ k q. q), ground (arith, s.next))

  -- The frame that comes next, and what follows it in the buffer.
  on_time_Handled :
      f.seq ≡ m + 1
      → let st' = record st { delivered = st.delivered ++ (f.seq, f.item) ∷ [] } in
        Handled sent m st f.seq
          (rounds (suc (length st.buffer)) (some (draining (f.seq + 1)), st')).1
  unfolding within
  on_time_Handled e =
      let st' : Rx = record st { delivered = st.delivered ++ (m + 1, f.item) ∷ [] } in
      let o : Ordered sent (m + 1) st' =
        routed_next sent m f.item st s.ordered (subst (λ k. item_at k sent ≡ some f.item) e real)
          st.buffer s.ordered.beyond s.missing in
      let r : Drained sent (m + 1) st'
          (rounds (suc (length st.buffer)) (some (draining (m + 1 + 1)), st')).1 =
        drain-Drained sent (suc (length st.buffer)) (m + 1) st' o (omega arith) in
      rw e (r.0, r.1, (λ k q. r.2 k (ground arith)), r.2 (m + 1) (ground arith))

  -- A frame from beyond a gap.
  early_Handled :
      (g : Option ℕ)
      → m + 1 < f.seq
      → Handled sent m st f.seq (record st { buffer = put f.seq f.item st.buffer; gap_since = g })
  unfolding within
  early_Handled g h = (
    m,
    record {
      ordered = record {
        sofar = s.ordered.sofar;
        bound = s.ordered.bound;
        beyond = AllBeyond-put m f.seq sent f.item st.buffer (omega arith) real s.ordered.beyond;
      };
      next = s.next;
      missing = ground (arith, find-put f.seq (m + 1) f.item st.buffer, s.missing);
    },
    (λ k q. ground (arith, has-put f.seq k f.item st.buffer)),
    ground (arith, has-put f.seq f.seq f.item st.buffer),
  )

run_of :
    (stuck now : ℕ) (c : Conn) (f : DataFrame) (st st' : Rx) (w : Option Wait)
    → arrive stuck now c f st ≡ (w, st')
    → handle_inbound_data stuck now c f st ≡ (rounds (suc (length st'.buffer)) (w, st')).1
unfolding handle_inbound_data to_end
run_of stuck now c f st st' w e = ap (λ r. (to_end r).1) e

idle_of :
    (stuck now : ℕ) (c : Conn) (f : DataFrame) (st st' : Rx)
    → arrive stuck now c f st ≡ (none, st')
    → handle_inbound_data stuck now c f st ≡ st'
idle_of stuck now c f st st' e =
    run_of stuck now c f st st' none e ∙ ap (λ r. r.1) (rounds-none (suc (length st'.buffer)) st')

-- A run of the handler without a break: for a frame that the peer sent, by a connection of the same
-- peer process, while no gap is given up.
pub handle_inbound_data-Handled :
    (sent : List Item) (m stuck now : ℕ) (c : Conn) (f : DataFrame) (st : Rx)
    → IsSettled sent m st
    → item_at f.seq sent ≡ some f.item
    → maybe_resync_peer_generation c st ≡ (false, st)
    → patient stuck now st ≡ true
    → Handled sent m st f.seq (handle_inbound_data stuck now c f st)
handle_inbound_data-Handled sent m stuck now c f st s real same_one calm =
    let begin = arrives stuck now c f st same_one in
    elim (Bool-cases (ltb f.seq st.expected)) [
      | inl h ↦
          rw (idle_of stuck now c f st st (begin ∙ late stuck now c f st same_one h))
            (late_Handled sent m f st s real h)
      | inr h ↦ elim (Bool-cases (f.seq == st.expected)) [
        | inl e ↦
            rw (run_of stuck now c f st _ _ (begin ∙ on_time stuck now c f st same_one h e))
              (on_time_Handled sent m f st s real (ground (arith, s.next)))
        | inr e ↦
            let (g, a) = early stuck now c f st same_one h e calm in
            rw (idle_of stuck now c f st _ (begin ∙ a))
              (early_Handled sent m f st s real g (ground (arith, s.next)))
      ]
    ]

pub fresh_rx-IsSettled : (sent : List Item) → IsSettled sent 0 fresh_rx
unfolding find number
fresh_rx-IsSettled sent = record {
  ordered = record { sofar = refl; bound = omega arith; beyond = tt };
  next = omega arith;
  missing = refl;
}
