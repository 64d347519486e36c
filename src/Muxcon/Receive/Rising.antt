-- ===== src/Muxcon/Receive/Rising.antt =====
-- What the receiver of openmux/server/adapters/muxcon.py keeps up when gaps are given up.
use openmux_server.Base.{
  ℕ, zero, suc, ◌+◌, ◌≤◌, ◌<◌, ◌≡◌, refl, sym, subst, ◌⊎◌, Text, false, Option, none, some, List,
  [], ◌∷◌, ◌++◌, arith, ltb, length, Option-cases, Bool-cases, inl, inr, All,
}
use openmux_server.Muxcon.Numbered.{Numbered, find, without, lowest, length-without-lt}
use openmux_server.Muxcon.Receive.{
  Rx, Wait, draining, flushing, Item, resume, rounds, stop_drain, stop_flush,
}
use openmux_server.Muxcon.Receive.Rounds.{rounds-none}

-- The numbers go up, from `lo` on, and stay below `hi`.
abbrev pub IsRising : ℕ → List (ℕ × Item) → ℕ → Type 0
IsRising lo [] hi = lo ≤ hi
IsRising lo ((k, x) ∷ l) hi = (lo ≤ k) × IsRising (k + 1) l hi

pub IsRising-append :
    (lo k hi : ℕ) (x : Item) (l : List (ℕ × Item))
    → IsRising lo l k
    → k < hi
    → IsRising lo (l ++ (k, x) ∷ []) hi
IsRising-append lo k hi x [] r h = (r, omega arith)
IsRising-append lo k hi x ((j, y) ∷ l) r h = (r.0, IsRising-append (j + 1) k hi x l r.1 h)

pub IsRising-below :
    (lo k hi : ℕ) (l : List (ℕ × Item)) → IsRising lo l k → k ≤ hi → IsRising lo l hi
IsRising-below lo k hi [] r h = omega arith
IsRising-below lo k hi ((j, y) ∷ l) r h = (r.0, IsRising-below (j + 1) k hi l r.1 h)

abbrev pub AllFrom : ℕ → Numbered Item → Type 0
AllFrom e = All (λ (p : ℕ × Item). e ≤ p.0)

-- What is delivered has rising numbers below `e`, and what is buffered has numbers from `e` on.
-- All of it is of the peer process `i`.
pub record IsInOrder (i : Text) (e : ℕ) (st : Rx) : Type 0 where
  pub rising : IsRising 1 st.delivered e
  pub later : AllFrom e st.buffer
  pub known : (st.instance_id ≡ none) ⊎ (st.instance_id ≡ some i)

AllFrom-next : (e : ℕ) (d : Numbered Item) → AllFrom e d → AllFrom (e + 1) (without e d)
unfolding without
AllFrom-next e [] a = tt
AllFrom-next e ((j, y) ∷ d) a = ground (arith, AllFrom-next e d)

pub lowest-le : (k : ℕ) (d : Numbered Item) → lowest k d ≤ k
unfolding lowest
lowest-le k [] = omega arith
lowest-le k ((j, y) ∷ d) = ground (arith, lowest-le k d, lowest-le j d)

pub AllFrom-above : (a b : ℕ) (d : Numbered Item) → AllFrom b d → a ≤ b → AllFrom a d
AllFrom-above a b [] h le = tt
AllFrom-above a b ((j, y) ∷ d) h le = (omega (arith, h.0), AllFrom-above a b d h.1 le)

not_above : (k j : ℕ) (d : Numbered Item) → ltb j k ≡ false → lowest k d ≤ j
not_above k j d e = ground (arith, lowest-le k d)

pub AllFrom-lowest : (k : ℕ) (d : Numbered Item) → AllFrom (lowest k d) d
unfolding lowest
AllFrom-lowest k [] = tt
AllFrom-lowest k ((j, y) ∷ d) = elim (Bool-cases (ltb j k)) [
  | inl e ↦
      let q : lowest k ((j, y) ∷ d) ≡ lowest j d = rw e refl in
      subst (λ n. (n ≤ j) × AllFrom n d) (sym q) (lowest-le j d, AllFrom-lowest j d)
  | inr e ↦
      let q : lowest k ((j, y) ∷ d) ≡ lowest k d = rw e refl in
      subst (λ n. (n ≤ j) × AllFrom n d) (sym q) (not_above k j d e, AllFrom-lowest k d)
]

pub lowest_ge : (e k : ℕ) (d : Numbered Item) → e ≤ k → AllFrom e d → e ≤ lowest k d
unfolding lowest
lowest_ge e k [] h a = h
lowest_ge e k ((j, y) ∷ d) h a = elim (Bool-cases (ltb j k)) [
  | inl b ↦ rw b (lowest_ge e j d a.0 a.1)
  | inr b ↦ rw b (lowest_ge e k d h a.1)
]

AllFrom-missing : (e : ℕ) (d : Numbered Item) → AllFrom e d → find e d ≡ none → AllFrom (e + 1) d
unfolding find
AllFrom-missing e [] a h = tt
AllFrom-missing e ((j, y) ∷ d) a h = ground (arith, AllFrom-missing e d)

abbrev pub at : Wait → ℕ
at (draining k) = k
at (flushing k) = k

-- A state in which no handler waits.
pub record IsResting (i : Text) (st : Rx) : Type 0 where
  pub order : IsInOrder i st.expected st
  pub beyond : AllFrom (st.expected + 1) st.buffer

module _ (i : Text) (st : Rx) where
  abbrev pub Resumed : Wait → Option Wait × Rx → Type 0
  Resumed w r =
      ((st' : Rx) × (r ≡ (none, st')) × IsResting i st')
      ⊎ ((v : Wait) × (st' : Rx) × (r ≡ (some v, st'))
          × IsInOrder i (at v) st'
          × (length st'.buffer < length st.buffer))

  taken :
      (k : ℕ) (x : Item)
      → IsInOrder i k st
      → IsInOrder i
          (k + 1)
          (record st { delivered = st.delivered ++ (k, x) ∷ []; buffer = without k st.buffer })
  taken k x o = record {
    rising = IsRising-append 1 k (k + 1) x st.delivered o.rising (omega arith);
    later = AllFrom-next k st.buffer o.later;
    known = o.known;
  }

  pub resume-InOrder : (w : Wait) → IsInOrder i (at w) st → Resumed w (resume w st)
  unfolding resume
  resume-InOrder (draining k) o = elim (Option-cases (find k st.buffer)) [
    | inl e ↦ rw e (
        inl (
          stop_drain k st,
          refl,
          record {
            order = record { rising = o.rising; later = o.later; known = o.known };
            beyond = AllFrom-missing k st.buffer o.later e;
          },
        ))
    | inr (x, e) ↦
        rw e (inr (draining (k + 1), _, refl, taken k x o, length-without-lt k x st.buffer e))
  ]
  resume-InOrder (flushing k) o = elim (Option-cases (find k st.buffer)) [
    | inl e ↦ rw e (
        inl (
          stop_flush k st,
          refl,
          record {
            order = record { rising = o.rising; later = o.later; known = o.known };
            beyond = AllFrom-missing k st.buffer o.later e;
          },
        ))
    | inr (x, e) ↦
        rw e (inr (flushing (k + 1), _, refl, taken k x o, length-without-lt k x st.buffer e))
  ]

pub rounds-IsResting :
    (i : Text) (fuel : ℕ) (w : Wait) (st : Rx)
    → IsInOrder i (at w) st
    → length st.buffer < fuel
    → IsResting i (rounds fuel (some w, st)).1
unfolding rounds
rounds-IsResting i zero w st o h = absurd (omega arith)
rounds-IsResting i (suc fuel) w st o h = elim (resume-InOrder i st w o) [
  | inl (st', e, r) ↦
      subst (λ q. IsResting i (rounds fuel q).1) (sym e)
        (subst (λ q. IsResting i q.1) (sym (rounds-none fuel st')) r)
  | inr (v, st', e, o', lt) ↦
      subst (λ q. IsResting i (rounds fuel q).1) (sym e)
        (rounds-IsResting i fuel v st' o' (omega arith))
]
