-- ===== src/Muxcon/Numbered.antt =====
-- A Python dict keyed by sequence numbers, in insertion order.
use openmux_server.Base.{
  ℕ, ◌≤◌, ◌<◌, ◌≡◌, refl, Bool, true, false, Option, none, some, List, [], ◌∷◌, arith, ◌==◌, ltb,
  if◌then◌else◌, length, ◌||◌, ◌&&◌, not, All, Bool-cases, inl, inr,
}

abbrev pub Numbered {ℓ} : Type ℓ → Type ℓ
Numbered V = List (ℕ × V)

module _ {ℓ} {V : Type ℓ} where
  unfoldable pub find : ℕ → Numbered V → Option V
  find k [] = none
  find k ((j, v) ∷ d) = if j == k then some v else find k d

  -- `k in d`
  unfoldable pub has : ℕ → Numbered V → Bool
  has k [] = false
  has k ((j, v) ∷ d) = if j == k then true else has k d

  -- `d[k] = v`
  unfoldable pub put : ℕ → V → Numbered V → Numbered V
  put k v [] = (k, v) ∷ []
  put k v ((j, w) ∷ d) = if j == k then (k, v) ∷ d else (j, w) ∷ put k v d

  -- `d.pop(k, None)`; keys are distinct in a dict, and every pair of the key goes.
  unfoldable pub without : ℕ → Numbered V → Numbered V
  without k [] = []
  without k ((j, w) ∷ d) = if j == k then without k d else (j, w) ∷ without k d

  -- `min(d)`, for a dict that is not empty.
  unfoldable pub lowest : ℕ → Numbered V → ℕ
  lowest k [] = k
  lowest k ((j, v) ∷ d) = lowest (if ltb j k then j else k) d

  pub find-put :
      (k j : ℕ) (v : V) (d : Numbered V)
      → find j (put k v d) ≡ (if k == j then some v else find j d)
  unfolding find put
  find-put k j v [] = refl
  find-put k j v ((i, w) ∷ d) = ground (arith, find-put k j v d)

  pub find-without :
      (k j : ℕ) (d : Numbered V) → find j (without k d) ≡ (if k == j then none else find j d)
  unfolding find without
  find-without k j [] = ground arith
  find-without k j ((i, w) ∷ d) = ground (arith, find-without k j d)

  pub has-find :
      (k : ℕ) (d : Numbered V) → has k d ≡ elim (find k d) [ none ↦ false | some v ↦ true ]
  unfolding has find
  has-find k [] = refl
  has-find k ((j, v) ∷ d) = ground (arith, has-find k d)

  pub length-without-le : (k : ℕ) (d : Numbered V) → length (without k d) ≤ length d
  unfolding without
  length-without-le k [] = omega arith
  length-without-le k ((j, v) ∷ d) = ground (arith, length-without-le k d)

  pub length-without-lt :
      (k : ℕ) (v : V) (d : Numbered V) → find k d ≡ some v → length (without k d) < length d
  unfolding without find
  length-without-lt k v [] h = cc
  length-without-lt k v ((j, w) ∷ d) h =
      ground (arith, length-without-lt k v d, length-without-le k d)

  pub has-put : (k j : ℕ) (v : V) (d : Numbered V) → has j (put k v d) ≡ ((k == j) || has j d)
  has-put k j v d = ground (arith, has-find j d, has-find j (put k v d), find-put k j v d)

  pub has-without : (k j : ℕ) (d : Numbered V) → has j (without k d) ≡ (not (k == j) && has j d)
  has-without k j d = ground (arith, has-find j d, has-find j (without k d), find-without k j d)

module _ {ℓ κ} {V : Type ℓ} where
  pub All-put :
      (P : ℕ × V → Type κ) (k : ℕ) (v : V) (d : Numbered V) → P (k, v) → All P d → All P (put k v d)
  unfolding put
  All-put P k v [] p a = (p, tt)
  All-put P k v ((j, w) ∷ d) p a = elim (Bool-cases (j == k)) [
    | inl e ↦ rw e (p, a.1)
    | inr e ↦ rw e (a.0, All-put P k v d p a.1)
  ]

  pub All-without : (P : ℕ × V → Type κ) (k : ℕ) (d : Numbered V) → All P d → All P (without k d)
  unfolding without
  All-without P k [] a = tt
  All-without P k ((j, w) ∷ d) a = elim (Bool-cases (j == k)) [
    | inl e ↦ rw e (All-without P k d a.1)
    | inr e ↦ rw e (a.0, All-without P k d a.1)
  ]
