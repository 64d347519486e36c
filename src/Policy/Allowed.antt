-- ===== src/Policy/Allowed.antt =====
-- openmux/server/security_policy.py: what the lists of a block allow.
use openmux_server.Base.{
  ◌≡◌, refl, ◌∙◌, sym, subst, ap, ◌⊎◌, inl, inr, Bool, true, not, ◌&&◌, ◌||◌, Option, none, some,
  List, [], ◌∷◌, map, Text, codes, same_iff, contains, arith, Bool-cases,
}
use openmux_server.Results.{returned, guard-returned, bind-returned}
use openmux_server.Policy.{
  without_all, is_none, names_of, resolve_one, resolve_allow_deny_list, list_or, star,
  unknown_values,
}
use openmux_server.Policy.Yaml.{
  Value, null, boolean, integer, float, list, text, mapping, Items, no_item, item, Fields, values,
  get, str,
}

-- The values that an entry of a block states, if it is a list, null or missing.
unfoldable pub Lists : Items → Option Value → List Value → Type 0
Lists default o vs =
    ((o ≡ none) × (vs ≡ values default))
    ⊎ (((o ≡ some null) × (vs ≡ [])) ⊎ ((ws : Items) × (o ≡ some (list ws)) × (vs ≡ values ws)))

list_or-Lists :
    (key : Text) (default : Items) (o : Option Value) (vs : List Value)
    → list_or key default o ≡ returned vs
    → Lists default o vs
unfolding Lists
list_or-Lists key default none vs h = inl (refl, cc)
list_or-Lists key default (some null) vs h = inr (inl (refl, cc))
list_or-Lists key default (some (boolean b)) vs h = cc
list_or-Lists key default (some (integer n)) vs h = cc
list_or-Lists key default (some (float b n)) vs h = cc
list_or-Lists key default (some (text s)) vs h = cc
list_or-Lists key default (some (list ws)) vs h = inr (inr (ws, refl, cc))
list_or-Lists key default (some (mapping d)) vs h = cc

-- A name is in a list of names by itself, or by the star.
abbrev stated : Text → List Text → Bool
stated t names = contains star names || contains t names

contains-without_all :
    (t : Text) (xs ys : List Text)
    → contains t (without_all xs ys) ≡ (contains t xs && not (contains t ys))
contains-without_all t [] ys = refl
contains-without_all t (x ∷ xs) ys = ground (arith, same_iff t x, contains-without_all t xs ys)

-- A list whose difference with the known names is empty has known names only.
pub known_or_not :
    (t : Text) (xs known : List Text)
    → is_none (without_all xs known) ≡ true
    → contains t xs ≡ (contains t known && contains t xs)
known_or_not t [] known h = ground arith
known_or_not t (x ∷ xs) known h = ground (arith, same_iff t x, known_or_not t xs known)

names_of-stated :
    (key : Text) (known normalized names : List Text) (t : Text)
    → names_of key known normalized ≡ returned names
    → contains t names ≡ (contains t known && stated t normalized)
unfolding names_of
names_of-stated key known normalized names t h = elim (Bool-cases (contains star normalized)) [
  | inl e ↦ let k : known ≡ names = cc in rw e (rw (sym k) (ground arith))
  | inr e ↦
      let unknown = without_all normalized known in
      let r = rw e at h in
      let b = bind-returned r in
      let n = guard-returned (is_none unknown) (unknown_values key unknown) b.0 b.1 in
      let q : normalized ≡ names = cc in
      rw e (
        subst (λ z. contains t z ≡ (contains t known && contains t normalized)) q
          (known_or_not t normalized known n))
]

-- Whether a list of values states a name.
abbrev pub states_name : (Value → Text) → (Text → Text) → Text → List Value → Bool
states_name repr normalize t vs = stated t (map (λ v. normalize (str repr v)) vs)

module _ (repr : Value → Text) (normalize : Text → Text) (known : List Text) where
  resolve_one-names :
      (key : Text) (default : Items) (d : Fields) (names : List Text)
      → resolve_one repr normalize known key default d ≡ returned names
      → (vs : List Value) × Lists default (get key d) vs
        × ((t : Text) → contains t names ≡ (contains t known && states_name repr normalize t vs))
  unfolding resolve_one
  resolve_one-names key default d names h =
      let b = bind-returned h in
      (
        b.0,
        list_or-Lists key default (get key d) b.0 b.1,
        λ t. names_of-stated key known (map (λ v. normalize (str repr v)) b.0) names t b.2,
      )

  -- A block that is accepted has, as `allowed` and as `disabled`, a list, null or nothing, which
  -- stands for the star and for no name. It allows the known names that `allowed` states, by
  -- themselves or by the star, and `disabled` does not state: what is disabled wins.
  pub resolve_allow_deny_list-names :
      (d : Fields) (names : List Text)
      → resolve_allow_deny_list repr normalize known d ≡ returned names
      → (allowed disabled : List Value) × Lists
          (item (text star) no_item)
          (get (codes "allowed") d)
          allowed
        × Lists no_item (get (codes "disabled") d) disabled
        × ((t : Text)
            → contains t names ≡ (
                contains t known
                && states_name repr normalize t allowed
                && not (states_name repr normalize t disabled)))
  unfolding resolve_allow_deny_list
  resolve_allow_deny_list-names d names h =
      let b₁ = bind-returned h in
      let b₂ = bind-returned b₁.2 in
      let q : without_all b₁.0 b₂.0 ≡ names = cc in
      let a = resolve_one-names (codes "allowed") (item (text star) no_item) d b₁.0 b₁.1 in
      let e = resolve_one-names (codes "disabled") no_item d b₂.0 b₂.1 in
      (
        a.0,
        e.0,
        a.1,
        e.1,
        λ t.
            ap (contains t) (sym q)
            ∙ ground (arith, contains-without_all t b₁.0 b₂.0, a.2 t, e.2 t),
      )
