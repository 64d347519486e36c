-- ===== src/Muxcon/Paths/Ranked.antt =====
-- The order of the connections in openmux/server/adapters/muxcon.py, and the path that it selects.
use openmux_server.Base.{
  ℕ, ◌≡◌, refl, Bool, true, false, not, ◌&&◌, ◌||◌, [], ◌∷◌, Text, arith, Bool-cases, inl, inr, All,
  All-map, ltb,
}
use openmux_server.Capacity.Integer.{ℤ, pos, negsuc}
use openmux_server.Dict.{Dict}
use openmux_server.Muxcon.Paths.{Meta, less, place, ranked, below}

pub less_irrefl : (a : ℤ) → less a a ≡ false
unfolding less
less_irrefl (pos a) = ground arith
less_irrefl (negsuc a) = ground arith

pub less_trans : (a b c : ℤ) → less a b ≡ true → less a c ≡ false → less b c ≡ false
unfolding less
less_trans (pos a) (pos b) (pos c) h k = ground arith
less_trans (pos a) (pos b) (negsuc c) h k = ground arith
less_trans (pos a) (negsuc b) c h k = cc
less_trans (negsuc a) (pos b) (pos c) h k = cc
less_trans (negsuc a) (pos b) (negsuc c) h k = ground arith
less_trans (negsuc a) (negsuc b) (pos c) h k = cc
less_trans (negsuc a) (negsuc b) (negsuc c) h k = ground arith

pub ranked_nil : ranked [] ≡ []
unfolding ranked
ranked_nil = refl

lower : ℤ → ℕ → ℤ → ℕ → Bool
lower a x b y = less a b || (not (less b a) && ltb x y)

lower_irrefl : (a : ℤ) (x : ℕ) → lower a x a x ≡ false
unfolding lower less
lower_irrefl (pos a) x = ground arith
lower_irrefl (negsuc a) x = ground arith

lower_asym : (a b : ℤ) (x y : ℕ) → lower a x b y ≡ true → lower b y a x ≡ false
unfolding lower less
lower_asym (pos a) (pos b) x y h = ground arith
lower_asym (pos a) (negsuc b) x y h = ground arith
lower_asym (negsuc a) (pos b) x y h = ground arith
lower_asym (negsuc a) (negsuc b) x y h = ground arith

lower_trans :
    (a b c : ℤ) (x y z : ℕ) → lower a x b y ≡ false → lower b y c z ≡ false → lower a x c z ≡ false
unfolding lower less
lower_trans (pos a) (pos b) (pos c) x y z h k = ground arith
lower_trans (pos a) (pos b) (negsuc c) x y z h k = ground arith
lower_trans (pos a) (negsuc b) (pos c) x y z h k = ground arith
lower_trans (pos a) (negsuc b) (negsuc c) x y z h k = ground arith
lower_trans (negsuc a) (pos b) (pos c) x y z h k = ground arith
lower_trans (negsuc a) (pos b) (negsuc c) x y z h k = ground arith
lower_trans (negsuc a) (negsuc b) (pos c) x y z h k = ground arith
lower_trans (negsuc a) (negsuc b) (negsuc c) x y z h k = ground arith

below-lower : (m n : Meta) → below m n ≡ lower m.pref m.opened_at n.pref n.opened_at
unfolding below lower
below-lower m n = refl

abbrev pub NotBelow : Meta → Text × Meta → Type 0
NotBelow m x = below m x.1 ≡ false

NotBelow-self : (x : Text × Meta) → NotBelow x.1 x
unfolding below lower
NotBelow-self x = lower_irrefl x.1.pref x.1.opened_at

NotBelow_trans : (m n k : Meta) → below m n ≡ false → below n k ≡ false → below m k ≡ false
unfolding below lower
NotBelow_trans m n k = lower_trans m.pref n.pref k.pref m.opened_at n.opened_at k.opened_at

below_asym : (m n : Meta) → below m n ≡ true → below n m ≡ false
unfolding below lower
below_asym m n = lower_asym m.pref n.pref m.opened_at n.opened_at

-- What a list that is not empty is sorted to starts with a connection that is below no other.
abbrev pub Leader : (Text × Meta → Type 0) → Dict Meta → Dict Meta → Type 0
Leader P d l = (y : Text × Meta) × (rest : Dict Meta) × (l ≡ y ∷ rest) × P y × All (NotBelow y.1) d

place_leads :
    (P : Text × Meta → Type 0) (x : Text × Meta) (d l : Dict Meta)
    → P x
    → Leader P d l
    → Leader P (x ∷ d) (place x l)
unfolding place
place_leads P x d l p (y, rest, e, q, a) = elim (Bool-cases (below x.1 y.1)) [
  | inl b ↦ (y, place x rest, rw (e, b) refl, q, (below_asym x.1 y.1 b, a))
  | inr b ↦ (
    x,
    y ∷ rest,
    rw (e, b) refl,
    p,
    (NotBelow-self x, All-map _ _ d (λ z n. NotBelow_trans x.1 y.1 z.1 b n) a),
  )
]

pub ranked_leads :
    (P : Text × Meta → Type 0) (x : Text × Meta) (d : Dict Meta)
    → All P (x ∷ d)
    → Leader P (x ∷ d) (ranked (x ∷ d))
unfolding ranked place
ranked_leads P x [] a = (x, [], refl, a.0, (NotBelow-self x, tt))
ranked_leads P x (y ∷ d) a = place_leads P x (y ∷ d) (ranked (y ∷ d)) a.0 (ranked_leads P y d a.1)
