-- ===== src/Muxcon/Receive/Twice.antt =====
-- Two handlers of openmux/server/adapters/muxcon.py for DATA frames at once.
use openmux_server.Base.{
  ℕ, ◌+◌, ◌≡◌, refl, ap, Text, same, same_refl, inl, inr, true, false, some, [], ◌∷◌, ◌++◌, arith,
  ◌==◌, ltb,
}
use openmux_server.Muxcon.Receive.{
  Rx, draining, Conn, DataFrame, arrive, accept, maybe_resync_peer_generation,
}
use openmux_server.Muxcon.Receive.Once.{IsOf}

is_next : (a b : ℕ) → a ≡ b → (a == b) ≡ true
is_next a b e = ground arith

is_not_late : (a b : ℕ) → a ≡ b → ltb a b ≡ false
is_not_late a b e = ground arith

resync_known :
    (i : Text) (c : Conn) (st : Rx)
    → IsOf i c
    → st.instance_id ≡ some i
    → maybe_resync_peer_generation c st ≡ (false, st)
unfolding maybe_resync_peer_generation same
resync_known [] c st (ne, e) k = cc
resync_known (b ∷ i) c st (ne, inr e) k = rw e refl
resync_known (b ∷ i) c st (ne, inl e) k = rw (e, k) (rw (same_refl (b ∷ i)) refl)

pub arrive_on_time :
    (i : Text) (stuck now : ℕ) (c : Conn) (f : DataFrame) (st : Rx)
    → IsOf i c
    → st.instance_id ≡ some i
    → f.seq ≡ st.expected
    → arrive stuck now c f st ≡ (
      some (draining (f.seq + 1)),
      record st { delivered = st.delivered ++ (f.seq, f.item) ∷ [] },
    )
unfolding arrive accept
arrive_on_time i stuck now c f st of k e =
    rw (resync_known i c st of k, is_next f.seq st.expected e, is_not_late f.seq st.expected e) refl

-- Two handlers at once: of a peer process that is known, a frame that comes next and comes again by
-- another path, while the first copy is being routed, is routed twice.
pub arrive_twice :
    (i : Text) (stuck now later : ℕ) (c c' : Conn) (f : DataFrame) (st : Rx)
    → IsOf i c
    → IsOf i c'
    → st.instance_id ≡ some i
    → f.seq ≡ st.expected
    → (arrive stuck later c' f (arrive stuck now c f st).1).1.delivered
      ≡ (st.delivered ++ (f.seq, f.item) ∷ []) ++ (f.seq, f.item) ∷ []
arrive_twice i stuck now later c c' f st of of' k e =
    rw (arrive_on_time i stuck now c f st of k e) (
      ap (λ r. r.1.delivered)
        (arrive_on_time i stuck later c' f
          (record st { delivered = st.delivered ++ (f.seq, f.item) ∷ [] }) of' k e))
