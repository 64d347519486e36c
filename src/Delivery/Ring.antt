-- ===== src/Delivery/Ring.antt =====
-- openmux/server/port_manager.py: the scrollback ring of a port.
use openmux_server.Base.{
  ℕ, zero, suc, ◌+◌, ◌-◌, ◌≤◌, ◌≡◌, refl, [], ◌∷◌, ◌++◌, Text, length, drop, ltb, if◌then◌else◌,
  arith, length-append, length-drop,
}

-- The ring is extended, and the excess is deleted from its front.
unfoldable pub retain : ℕ → Text → Text → Text
retain size ring d = if ltb 0 size then drop (length (ring ++ d) - size) (ring ++ d) else ring

-- The last bytes of a text, at most so many.
unfoldable pub last : ℕ → Text → Text
last n s = drop (length s - n) s

drop-nil : (k : ℕ) → drop {A = ℕ} k [] ≡ []
drop-nil zero = refl
drop-nil (suc k) = refl

suc_add : (n k : ℕ) → suc n + k ≡ suc (n + k)
suc_add n k = omega arith

-- A longer tail forgets nothing that the shorter one needs.
pub drop-drop : (k n : ℕ) (s : Text) → drop k (drop n s) ≡ drop (n + k) s
drop-drop k zero s = ground arith
drop-drop k (suc n) [] = ground (arith, drop-nil k, drop-nil (suc n + k))
drop-drop k (suc n) (c ∷ s) = rw (suc_add n k) (drop-drop k n s)

pub last-nil : (n : ℕ) → last n [] ≡ []
unfolding last
last-nil n = drop-nil (0 - n)

pub drop-prefix : (k : ℕ) (s t : Text) → k ≤ length s → drop k s ++ t ≡ drop k (s ++ t)
drop-prefix zero s t h = refl
drop-prefix (suc k) [] t h = ground arith
drop-prefix (suc k) (c ∷ s) t h = drop-prefix k s t (omega (arith, h))

the_rest : (a b n : ℕ) → (a - n) + ((a + b) - (a - n) - n) ≡ (a + b) - n
the_rest a b n = omega arith

pub last-last : (n : ℕ) (s t : Text) → last n (last n s ++ t) ≡ last n (s ++ t)
unfolding last
last-last n s t =
    rw (drop-prefix (length s - n) s t (omega arith)) rw
      (drop-drop (length (drop (length s - n) (s ++ t)) - n) (length s - n) (s ++ t)) rw
      (length-drop (length s - n) (s ++ t), length-append s t) rw (the_rest (length s) (length t) n)
      refl

drop-all : (s : Text) → drop (length s - 0) s ≡ []
drop-all [] = ground arith
drop-all (c ∷ s) = ground (arith, drop-all s)

pub retain-last : (size : ℕ) (s d : Text) → retain size (last size s) d ≡ last size (s ++ d)
unfolding retain last
retain-last zero s d = rw (drop-all s, drop-all (s ++ d)) refl
retain-last (suc n) s d = ground (arith, last-last (suc n) s d)

pub length-retain_le :
    (size : ℕ) (ring d : Text) → length ring ≤ size → length (retain size ring d) ≤ size
unfolding retain
length-retain_le size ring d h = ground (arith, length-drop (length (ring ++ d) - size) (ring ++ d))
