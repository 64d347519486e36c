-- ===== src/Action/Targets.antt =====
-- openmux/server/actions/session.py: the outlets that a power call means.
use openmux_server.Base.{
  ◌≡◌, refl, subst, inl, inr, true, false, ◌||◌, List, [], ◌∷◌, ◌++◌, Text, contains, same,
  same_iff, All, All-append, arith, Bool-cases, if◌then◌else◌,
}
use openmux_server.Action.Power.{Ref, wanted, is_remote, target_refs, power_target_refs}
use openmux_server.Results.{returned, bind-returned, returned_same}

-- An outlet that the port declares, and that no other server owns.
abbrev pub IsFeed : List Text → Text → Type 0
IsFeed declared r = (contains r declared ≡ true) × (is_remote r ≡ false)

unfoldable pub NoRepeats : List Text → Type 0
NoRepeats [] = Unit
NoRepeats (r ∷ rs) = (contains r rs ≡ false) × NoRepeats rs

contains-append :
    (t : Text) (xs ys : List Text) → contains t (xs ++ ys) ≡ (contains t xs || contains t ys)
contains-append t [] ys = refl
contains-append t (x ∷ xs) ys = ground (arith, contains-append t xs ys)

NoRepeats-snoc :
    (xs : List Text) (r : Text) → NoRepeats xs → contains r xs ≡ false → NoRepeats (xs ++ r ∷ [])
unfolding NoRepeats
NoRepeats-snoc [] r h n = (refl, tt)
NoRepeats-snoc (x ∷ xs) r h n = (
  rw (contains-append x xs (r ∷ [])) (ground (arith, h.0, n, same_iff x r, same_iff r x)),
  NoRepeats-snoc xs r h.1 (ground (arith, n)),
)

-- The refs so far, with one more if it is new.
unfoldable added : List Text → Text → List Text
added out r = if contains r out then out else out ++ r ∷ []

module _ (declared : List Text) where
  target_refs-cons :
      (out rs refs : List Text) (r : Text)
      → target_refs declared out (r ∷ rs) ≡ returned refs
      → IsFeed declared r × (target_refs declared (added out r) rs ≡ returned refs)
  unfolding target_refs added
  target_refs-cons out rs refs r h = elim (Bool-cases (is_remote r)) [
    | inl e ↦ let g = rw e at h in cc
    | inr e ↦ elim (Bool-cases (contains r declared)) [
      | inl f ↦ ((f, e), let g = rw (e, f) at h in g)
      | inr f ↦ let g = rw (e, f) at h in cc
    ]
  ]

  added-NoRepeats : (out : List Text) (r : Text) → NoRepeats out → NoRepeats (added out r)
  unfolding added
  added-NoRepeats out r h = elim (Bool-cases (contains r out)) [
    | inl e ↦ rw e h
    | inr e ↦ rw e (NoRepeats-snoc out r h e)
  ]

  added-All :
      (out : List Text) (r : Text)
      → IsFeed declared r
      → All (IsFeed declared) out
      → All (IsFeed declared) (added out r)
  unfolding added
  added-All out r f h = elim (Bool-cases (contains r out)) [
    | inl e ↦ rw e h
    | inr e ↦ rw e (All-append (IsFeed declared) out (r ∷ []) h (f, tt))
  ]

  contains-added :
      (t r : Text) (out : List Text) → contains t (added out r) ≡ (contains t out || same t r)
  unfolding added
  contains-added t r out = ground (arith, contains-append t out (r ∷ []), same_iff t r)

  -- The refs that are collected, against those that are still to come.
  Collects : List Text → List Text → List Text → Type 0
  Collects out rs refs =
      All (IsFeed declared) refs
      × NoRepeats refs
      × ((t : Text) → contains t refs ≡ (contains t out || contains t rs))

  target_refs-Collects :
      (rs out refs : List Text)
      → All (IsFeed declared) out
      → NoRepeats out
      → target_refs declared out rs ≡ returned refs
      → Collects out rs refs
  unfolding target_refs Collects
  target_refs-Collects [] out refs a n h =
      subst (Collects out []) (returned_same h) (a, n, λ t. ground arith)
  target_refs-Collects (r ∷ rs) out refs a n h =
      let c = target_refs-cons out rs refs r h in
      let d =
        target_refs-Collects rs (added out r) refs (added-All out r c.0 a) (added-NoRepeats out r n)
          c.1 in
      (d.0, d.1, λ t. ground (arith, d.2 t, contains-added t r out))

  -- The refs of a power call, when it is not refused: each is a feed that the port declares and is not
  -- remote, none comes twice, and they are those that were asked for, or all feeds of the port when
  -- none was named.
  pub power_target_refs-IsFeed :
      (ref : Ref) (refs : List Text)
      → power_target_refs declared ref ≡ returned refs
      → (rs : List Text) × (wanted declared ref ≡ returned rs)
        × All (IsFeed declared) refs
        × NoRepeats refs
        × ((t : Text) → contains t refs ≡ contains t rs)
  unfolding power_target_refs Collects NoRepeats
  power_target_refs-IsFeed ref refs h =
      let b = bind-returned h in
      let c = target_refs-Collects b.0 [] refs tt tt b.2 in (b.0, b.1, c.0, c.1, c.2)
