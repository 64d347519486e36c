-- ===== src/Muxcon/Receive/Run.antt =====
-- What one run of the handler of openmux/server/adapters/muxcon.py delivers for a frame that is next.
use openmux_server.Base.{
  ℕ, zero, suc, ◌+◌, ◌<◌, ◌≡◌, refl, ap, sym, subst, ◌∙◌, Option, none, some, List, [], ◌∷◌, ◌++◌,
  Text, arith, length, append-nil, append_assoc, Option-cases, inl, inr,
}
use openmux_server.Muxcon.Numbered.{Numbered, find, without, find-without, length-without-lt}
use openmux_server.Muxcon.Receive.{
  Rx, Wait, draining, Item, Conn, DataFrame, resume, rounds, to_end, arrive, stop_drain,
}
use openmux_server.Muxcon.Receive.Once.{IsOf}
use openmux_server.Muxcon.Receive.Rounds.{rounds-none}
use openmux_server.Muxcon.Receive.Twice.{arrive_on_time}

-- The items of the numbers from `k` on that are there without a gap, up to the first that is not.
unfoldable pub IsRun : ℕ → List (ℕ × Item) → Numbered Item → ℕ → Type 0
IsRun k [] d end = (end ≡ k) × (find k d ≡ none)
IsRun k ((j, x) ∷ run) d end = (j ≡ k) × (find k d ≡ some x) × IsRun (k + 1) run d end

find-without_below : (j k : ℕ) (d : Numbered Item) → j < k → find k (without j d) ≡ find k d
find-without_below j k d h = ground (arith, find-without j k d)

IsRun-without :
    (j k : ℕ) (run : List (ℕ × Item)) (d : Numbered Item) (end : ℕ)
    → j < k
    → IsRun k run (without j d) end
    → IsRun k run d end
unfolding IsRun
IsRun-without j k [] d end h r = (r.0, sym (find-without_below j k d h) ∙ r.1)
IsRun-without j k ((n, x) ∷ run) d end h r = (
  r.0,
  sym (find-without_below j k d h) ∙ r.1,
  IsRun-without j (k + 1) run d end (omega (arith, h)) r.2,
)

-- The run is delivered, and the handler is at its end.
abbrev Delivers : ℕ → Rx → Option Wait × Rx → Type 0
Delivers k st r =
    (run : List (ℕ × Item)) × (end : ℕ) × IsRun k run st.buffer end
    × (r.0 ≡ none)
    × (r.1.delivered ≡ st.delivered ++ run)
    × (r.1.expected ≡ end)
    × (r.1.gap_since ≡ none)

abbrev took : ℕ → Item → Rx → Rx
took k x st = record st { delivered = st.delivered ++ (k, x) ∷ []; buffer = without k st.buffer }

stops :
    (k : ℕ) (st : Rx) → find k st.buffer ≡ none → resume (draining k) st ≡ (none, stop_drain k st)
unfolding resume
stops k st e = rw e refl

takes :
    (k : ℕ) (x : Item) (st : Rx)
    → find k st.buffer ≡ some x
    → resume (draining k) st ≡ (some (draining (k + 1)), took k x st)
unfolding resume
takes k x st e = rw e refl

stops_at :
    (fuel k : ℕ) (st : Rx)
    → find k st.buffer ≡ none
    → rounds (suc fuel) (some (draining k), st) ≡ (none, stop_drain k st)
unfolding rounds
stops_at fuel k st e = ap (rounds fuel) (stops k st e) ∙ rounds-none fuel (stop_drain k st)

takes_at :
    (fuel k : ℕ) (x : Item) (st : Rx)
    → find k st.buffer ≡ some x
    → rounds (suc fuel) (some (draining k), st) ≡ rounds fuel (some (draining (k + 1)), took k x st)
unfolding rounds
takes_at fuel k x st e = ap (rounds fuel) (takes k x st e)

rounds-Delivers :
    (fuel k : ℕ) (st : Rx)
    → length st.buffer < fuel
    → Delivers k st (rounds fuel (some (draining k), st))
unfolding IsRun
rounds-Delivers zero k st h = absurd (omega arith)
rounds-Delivers (suc fuel) k st h = elim (Option-cases (find k st.buffer)) [
  | inl e ↦
      subst (Delivers k st) (sym (stops_at fuel k st e))
        ([], k, (refl, e), refl, sym (append-nil st.delivered), refl, refl)
  | inr (x, e) ↦
      let (run, end, r, ended, delivered, expected, closed) =
        rounds-Delivers fuel (k + 1) (took k x st)
          (omega (arith, h, length-without-lt k x st.buffer e)) in
      subst (Delivers k st) (sym (takes_at fuel k x st e)) (
        (k, x) ∷ run,
        end,
        (refl, e, IsRun-without k (k + 1) run st.buffer end (omega arith) r),
        ended,
        delivered ∙ append_assoc st.delivered ((k, x) ∷ []) run,
        expected,
        closed,
      )
]

-- The handler of a frame that comes next, from the known process of the peer, comes to its end when it
-- runs without a break. It delivers the frame, and after it exactly the buffered frames that follow
-- without a gap, in order; it expects the first number that is missing then, and has no gap noted.
pub arrive_drains :
    (i : Text) (stuck now : ℕ) (c : Conn) (f : DataFrame) (st : Rx)
    → IsOf i c
    → st.instance_id ≡ some i
    → f.seq ≡ st.expected
    → let r = to_end (arrive stuck now c f st) in
      (run : List (ℕ × Item)) × (end : ℕ) × IsRun (f.seq + 1) run st.buffer end
      × (r.0 ≡ none)
      × (r.1.delivered ≡ (st.delivered ++ (f.seq, f.item) ∷ []) ++ run)
      × (r.1.expected ≡ end)
      × (r.1.gap_since ≡ none)
unfolding to_end
arrive_drains i stuck now c f st of known next =
    let st' : Rx = record st { delivered = st.delivered ++ (f.seq, f.item) ∷ [] } in
    subst (λ q. Delivers (f.seq + 1) st' (to_end q))
      (sym (arrive_on_time i stuck now c f st of known next))
      (rounds-Delivers (suc (length st.buffer)) (f.seq + 1) st' (omega arith))
