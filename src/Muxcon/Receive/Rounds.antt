-- ===== src/Muxcon/Receive/Rounds.antt =====
-- The handler of openmux/server/adapters/muxcon.py for DATA frames ends.
use openmux_server.Base.{
  ℕ, zero, suc, ◌+◌, ◌<◌, ◌≡◌, refl, Option, none, some, arith, length, Option-cases, inl, inr, ◌⊎◌,
  ap, sym, subst,
}
use openmux_server.Muxcon.Numbered.{find, length-without-lt}
use openmux_server.Muxcon.Receive.{
  Rx, Wait, draining, flushing, Conn, DataFrame, resume, rounds, to_end, arrive,
}

pub rounds-none : (n : ℕ) (st : Rx) → rounds n (none, st) ≡ (none, st)
unfolding rounds
rounds-none zero st = refl
rounds-none (suc n) st = refl

-- Either a handler stops at its next number, or it routes that number's item and goes on with a
-- shorter buffer.
resume_shrinks :
    (w : Wait) (st : Rx)
    → ((resume w st).0 ≡ none)
      ⊎ ((v : Wait) × ((resume w st).0 ≡ some v)
          × (length (resume w st).1.buffer < length st.buffer))
unfolding resume
resume_shrinks (draining k) st = elim (Option-cases (find k st.buffer)) [
  | inl e ↦ rw e (inl refl)
  | inr (x, e) ↦ rw e (inr (draining (k + 1), refl, length-without-lt k x st.buffer e))
]
resume_shrinks (flushing k) st = elim (Option-cases (find k st.buffer)) [
  | inl e ↦ rw e (inl refl)
  | inr (x, e) ↦ rw e (inr (flushing (k + 1), refl, length-without-lt k x st.buffer e))
]

rounds_end :
    (fuel : ℕ) (o : Option Wait) (st : Rx)
    → length st.buffer < fuel
    → (rounds fuel (o, st)).0 ≡ none
unfolding rounds
rounds_end fuel none st h = ap (λ r. r.0) (rounds-none fuel st)
rounds_end zero (some w) st h = absurd (omega arith)
rounds_end (suc fuel) (some w) st h = elim (resume_shrinks w st) [
  | inl e ↦
      subst (λ o. (rounds fuel (o, (resume w st).1)).0 ≡ none) (sym e)
        (ap (λ r. r.0) (rounds-none fuel (resume w st).1))
  | inr (v, e, lt) ↦ rounds_end fuel (resume w st).0 (resume w st).1 (omega (arith, lt))
]

-- The handler of a frame comes to its end within the rounds that it is given, in any state.
arrive_ends :
    (stuck now : ℕ) (c : Conn) (f : DataFrame) (st : Rx)
    → (to_end (arrive stuck now c f st)).0 ≡ none
unfolding to_end
arrive_ends stuck now c f st =
    rounds_end (suc (length (arrive stuck now c f st).1.buffer)) (arrive stuck now c f st).0
      (arrive stuck now c f st).1 (omega arith)
