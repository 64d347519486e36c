-- ===== src/Muxcon/Paths/Best.antt =====
-- The best path of a group of openmux/server/adapters/muxcon.py.
use openmux_server.Base.{
  ◌≡◌, refl, subst, ◌⊎◌, Bool, true, false, not, ◌&&◌, none, some, List, [], ◌∷◌, Text, same,
  same_iff, arith, keep, Bool-cases, inl, inr, All, All-map,
}
use openmux_server.Dict.{Dict, lookup, has_key}
use openmux_server.Muxcon.Paths.{
  Meta, Group, less, below, mpath_promote_primary, mpath_try_preempt, pref_of,
}
use openmux_server.Muxcon.Paths.Grouped.{IsDict-lookup, IsLive}
use openmux_server.Muxcon.Paths.Ranked.{less_trans, less_irrefl, ranked_nil, NotBelow, ranked_leads}

module _ {A : Type 0} where
  pub All-keep :
      (P : A → Type 0) (p : A → Bool) (xs : List A)
      → All P xs
      → All (λ x. P x × (p x ≡ true)) (keep p xs)
  All-keep P p [] a = tt
  All-keep P p (x ∷ xs) a = elim (Bool-cases (p x)) [
    | inl e ↦ rw e ((a.0, e), All-keep P p xs a.1)
    | inr e ↦ rw e (All-keep P p xs a.1)
  ]

  -- What holds of the elements that are kept.
  All-of_keep :
      (P : A → Type 0) (p : A → Bool) (xs : List A)
      → All P (keep p xs)
      → All (λ x. p x ≡ true → P x) xs
  All-of_keep P p [] a = tt
  All-of_keep P p (x ∷ xs) a = elim (Bool-cases (p x)) [
    | inl e ↦ let b = rw e at a in ((λ q. b.0), All-of_keep P p xs b.1)
    | inr e ↦ ((λ q. cc), All-of_keep P p xs (rw e at a))
  ]

-- The paths that are not stale.
abbrev pub AllLive : (Text → Meta → Bool) → (Meta → Type 0) → Dict Meta → Type 0
AllLive stale P = All (λ (x : Text × Meta). stale x.0 x.1 ≡ false → P x.1)

abbrev pub AllStale : (Text → Meta → Bool) → Dict Meta → Type 0
AllStale stale = All (λ (x : Text × Meta). stale x.0 x.1 ≡ true)

not-true : (b : Bool) → b ≡ false → not b ≡ true
not-true b e = ground arith

below-less : (m n : Meta) → below m n ≡ false → less m.pref n.pref ≡ false
unfolding below
below-less m n h = ground arith

module _ (stale : Text → Meta → Bool) (g : Group) (l : IsLive g) where
  abbrev pub live : Text × Meta → Bool
  live x = not (stale x.0 x.1)

  abbrev pub Best : Type 0
  Best =
      (p : Text) × (m : Meta) × (mpath_promote_primary stale g ≡ some p)
      × (lookup p g.conns ≡ some m)
      × ((stale p m ≡ false) ⊎ AllStale stale g.conns)
      × AllLive stale (λ n. less m.pref n.pref ≡ false) g.conns

  best_live : (y : Text × Meta) (d : Dict Meta) → keep live g.conns ≡ y ∷ d → Best
  unfolding mpath_promote_primary
  best_live y d e =
      let a = rw e at (
        All-keep (λ (x : Text × Meta). lookup x.0 g.conns ≡ some x.1) live g.conns
          (IsDict-lookup g.conns l.dict)) in
      let (z, rest, r, f, n) =
        ranked_leads (λ x. (lookup x.0 g.conns ≡ some x.1) × (live x ≡ true)) y d a in
      (
        z.0,
        z.1,
        rw (e, r) refl,
        f.0,
        inl (ground (arith, f.1)),
        All-map _ _ g.conns (λ x h s. below-less z.1 x.1 (h (not-true (stale x.0 x.1) s)))
            (All-of_keep (NotBelow z.1) live g.conns (rw e n)),
      )

  all_stale : keep live g.conns ≡ [] → AllStale stale g.conns
  all_stale e =
      All-map _ _ g.conns (λ x h. dead x h)
        (All-of_keep (λ x. live x ≡ false) live g.conns (rw e tt))
    where
      dead : (x : Text × Meta) → (live x ≡ true → live x ≡ false) → stale x.0 x.1 ≡ true
      dead x h = ground arith

  best_stale : (y : Text × Meta) (d : Dict Meta) → keep live g.conns ≡ [] → g.conns ≡ y ∷ d → Best
  unfolding mpath_promote_primary
  best_stale y d e c =
      let a = rw c at (IsDict-lookup g.conns l.dict) in
      let (z, rest, r, f, n) = ranked_leads (λ x. lookup x.0 (y ∷ d) ≡ some x.1) y d a in
      (
        z.0,
        z.1,
        rw (e, c, r) refl,
        rw c f,
        inr (all_stale e),
        All-map _ _ g.conns (λ x h s. absurd (clash (stale x.0 x.1) h s)) (all_stale e),
      )
    where
      clash : (b : Bool) → b ≡ true → b ≡ false → ⊥
      clash b h k = cc

  conns_cases : (d : Dict Meta) → (d ≡ []) ⊎ ((y : Text × Meta) × (e : Dict Meta) × (d ≡ y ∷ e))
  conns_cases [] = inl refl
  conns_cases (y ∷ e) = inr (y, e, refl)

  some_path : g.conns ≡ [] → ⊥
  unfolding lookup
  some_path e = absurd (none_there (rw e at l.member))
    where
      none_there : has_key {V = Meta} l.first_path [] ≡ true → ⊥
      none_there q = cc

  pub best : Best
  best = elim (conns_cases (keep live g.conns)) [
    | inl e ↦ elim (conns_cases g.conns) [
      | inl c ↦ absurd (some_path c)
      | inr (y, d, c) ↦ best_stale y d e c
    ]
    | inr (y, d, e) ↦ best_live y d e
  ]

  unfoldable pub better : Text → Text × Meta → Bool
  better current x = live x && less (pref_of (lookup current g.conns)) x.1.pref

  -- A path that takes over is live, and preferred to the primary and to all live paths.
  unfoldable pub Preempting : Text → Type 0
  unfolding better
  Preempting current =
      ((mpath_try_preempt stale g current ≡ none) × All (λ x. better current x ≡ false) g.conns)
      ⊎ ((p : Text) × (m : Meta) × (mpath_try_preempt stale g current ≡ some p)
          × (lookup p g.conns ≡ some m)
          × (stale p m ≡ false)
          × AllLive stale (λ n. less m.pref n.pref ≡ false) g.conns)

  another :
      (current : Text) (z : Text × Meta)
      → lookup z.0 g.conns ≡ some z.1
      → less (pref_of (lookup current g.conns)) z.1.pref ≡ true
      → same z.0 current ≡ false
  another current z f h = elim (Bool-cases (same z.0 current)) [
    | inl e ↦
        let q = subst (λ c. lookup c g.conns ≡ some z.1) ((same_iff z.0 current).0 e) f in
        absurd (clash (less z.1.pref z.1.pref) (rw q at h) (less_irrefl z.1.pref))
    | inr e ↦ e
  ]
    where
      clash : (b : Bool) → b ≡ true → b ≡ false → ⊥
      clash b h k = cc

  none_better :
      (current : Text)
      → keep (better current) g.conns ≡ []
      → All (λ x. better current x ≡ false) g.conns
  none_better current e =
      All-map _ _ g.conns (λ x h. worse (better current x) h)
        (All-of_keep (λ x. better current x ≡ false) (better current) g.conns (rw e tt))
    where
      worse : (b : Bool) → (b ≡ true → b ≡ false) → b ≡ false
      worse b h = ground arith

  outranked :
      (current : Text) (m : Meta)
      → less (pref_of (lookup current g.conns)) m.pref ≡ true
      → (x : Text × Meta) → (better current x ≡ true → NotBelow m x)
      → stale x.0 x.1 ≡ false
      → less m.pref x.1.pref ≡ false
  unfolding better
  outranked current m h x n s =
      elim (Bool-cases (less (pref_of (lookup current g.conns)) x.1.pref)) [
        | inl e ↦ below-less m x.1 (n (rw (s, e) refl))
        | inr e ↦ less_trans (pref_of (lookup current g.conns)) m.pref x.1.pref h e
      ]

  pub preempting : (current : Text) → Preempting current
  unfolding mpath_try_preempt better Preempting
  preempting current = elim (conns_cases (keep (better current) g.conns)) [
    | inl e ↦ inl (rw (e, ranked_nil) refl, none_better current e)
    | inr (y, d, e) ↦
        let a = rw e at (
          All-keep (λ (x : Text × Meta). lookup x.0 g.conns ≡ some x.1) (better current) g.conns
            (IsDict-lookup g.conns l.dict)) in
        let (z, rest, r, f, n) =
          ranked_leads (λ x. (lookup x.0 g.conns ≡ some x.1) × (better current x ≡ true)) y d a in
        let ahead : less (pref_of (lookup current g.conns)) z.1.pref ≡ true = ground (arith, f.1) in
        inr (
          z.0,
          z.1,
          rw (e, r, another current z f.0 ahead) refl,
          f.0,
          ground (arith, f.1),
          All-map _ _ g.conns (outranked current z.1 ahead)
              (All-of_keep (NotBelow z.1) (better current) g.conns (rw e n)),
        )
  ]
