-- ===== src/Muxcon/Filters/Tells.antt =====
-- Tests of openmux/server/adapters/muxcon.py that tell whether statements on filters hold.
use openmux_server.Base.{
  ◌≡◌, refl, ◌↔◌, ◌⊎◌, inl, inr, Bool, true, false, ◌&&◌, ◌||◌, List, [], ◌∷◌, Text, arith,
  if◌then◌else◌,
}
use openmux_server.Muxcon.Filters.{Filters, is_empty}

pub tests :
    (e f s a b c x y z : Bool)
    → ((if e || f
          then false
          else if s
          then false
          else if a && b && c
          then false
          else (a || x) && (b || y) && (c || z))
        ≡ true)
      ↔ ((e ≡ false)
          × (f ≡ false)
          × (s ≡ false)
          × ((a && b && c) ≡ false)
          × ((a || x) ≡ true)
          × ((b || y) ≡ true)
          × ((c || z) ≡ true))
tests true f s a b c x y z = ground arith
tests false true s a b c x y z = ground arith
tests false false true a b c x y z = ground arith
tests false false false a b c x y z = ground arith

-- A test that tells whether a statement holds.
abbrev pub Tells : Bool → Type 0 → Type 0
Tells b P = (b ≡ true → P) × (P → b ≡ true)

pub Tells_not : (b : Bool) (P : Type 0) → Tells b P → b ≡ false → ¬ P
Tells_not b P t e p = clash b e (t.1 p)
  where
    clash : (c : Bool) → c ≡ false → c ≡ true → ⊥
    clash c h k = cc

pub not_Tells : (b : Bool) (P : Type 0) → Tells b P → ¬ P → b ≡ false
not_Tells true P t n = absurd (n (t.0 refl))
not_Tells false P t n = refl

pub Tells_or : (b c : Bool) (P Q : Type 0) → Tells b P → Tells c Q → Tells (b || c) (P ⊎ Q)
Tells_or true c P Q t u = ((λ e. inl (t.0 refl)), λ p. refl)
Tells_or false c P Q t u = (
  (λ e. inr (u.0 e)),
  λ p. elim p [ inl q ↦ absurd (Tells_not false P t refl q) | inr q ↦ u.1 q ],
)

pub is_empty-Tells : (ps : List Text) → Tells (is_empty ps) (ps ≡ [])
is_empty-Tells [] = ((λ e. refl), λ e. refl)
is_empty-Tells (p ∷ ps) = ((λ e. cc), λ e. cc)

-- None of the lists is given.
abbrev pub Unlisted : Filters → Type 0
Unlisted f = (f.include ≡ []) × (f.adapter_include ≡ []) × (f.server_include ≡ [])

pub Unlisted-Tells :
    (f : Filters)
    → Tells
        (is_empty f.include && is_empty f.adapter_include && is_empty f.server_include)
        (Unlisted f)
Unlisted-Tells f =
    both (is_empty f.include) (is_empty f.adapter_include) (is_empty f.server_include)
      (is_empty-Tells f.include) (is_empty-Tells f.adapter_include)
      (is_empty-Tells f.server_include)
  where
    both :
        (a b c : Bool)
        → {P Q R : Type 0} → Tells a P
        → Tells b Q
        → Tells c R
        → Tells (a && b && c) (P × Q × R)
    both true true true t u v = ((λ e. (t.0 refl, u.0 refl, v.0 refl)), λ e. refl)
    both false b c t u v = ((λ e. cc), λ e. t.1 e.0)
    both true false c t u v = ((λ e. cc), λ e. u.1 e.1)
    both true true false t u v = ((λ e. cc), λ e. v.1 e.2)
