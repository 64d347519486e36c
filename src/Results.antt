-- ===== src/Results.antt =====
-- What a Python function does that may raise: it returns a value or raises an error.
use openmux_server.Base.{◌≡◌, ◌⊎◌, inl, inr, refl, ap, Bool, true, false}

pub data Result (E A : Type 0) : Type 0 where
  returned : A → Result E A
  raised : E → Result E A

infixl 5 ◌>>=◌
unfoldable pub ◌>>=◌ : {E A B : Type 0} → Result E A → (A → Result E B) → Result E B
returned a >>= f = f a
raised e >>= f = raised e

-- `if not b: raise e`
abbrev pub guard : {E : Type 0} → Bool → E → Result E Unit
guard true e = returned tt
guard false e = raised e

module _ {E : Type 0} where
  pub guard-returned : (b : Bool) (e : E) (u : Unit) → guard b e ≡ returned u → b ≡ true
  guard-returned true e u h = refl
  guard-returned false e u h = cc

module _ {E A B : Type 0} where
  -- What a chain returns was returned at its first step too.
  pub bind-returned :
      {m : Result E A} {f : A → Result E B} {b : B}
      → (m >>= f) ≡ returned b
      → (a : A) × (m ≡ returned a) × (f a ≡ returned b)
  unfolding ◌>>=◌
  bind-returned {m = returned a} h = (a, refl, h)
  bind-returned {m = raised e} h = cc

module _ {E A : Type 0} where
  pub returned_same : {a b : A} → ◌≡◌ {A = Result E A} (returned a) (returned b) → a ≡ b
  returned_same {a} h = ap (λ r. elim r as (λ _. A) [ returned x ↦ x | raised e ↦ a ]) h

  pub Result-cases : (r : Result E A) → ((e : E) × (r ≡ raised e)) ⊎ ((a : A) × (r ≡ returned a))
  Result-cases (returned a) = inr (a, refl)
  Result-cases (raised e) = inl (e, refl)
