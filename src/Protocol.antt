-- ===== src/Protocol.antt =====
-- openmux/server/adapters/protocols: the protocols of a port that is reached over TCP. A transform of
-- bytes keeps its state from one chunk to the next.
pub mod Conserver
pub mod Handshake
pub mod Logins
pub mod Telnet
pub mod Stripped
mod Tests
use openmux_server.Base.{
  ℕ, ◌≡◌, refl, sym, ◌∙◌, ap, List, [], ◌∷◌, ◌++◌, append_assoc, append-nil, Text, concat,
}

module _ {S : Type 0} (step : S → ℕ → Text × S) where
  -- A chunk through the transform: what comes out, and the state afterwards.
  unfoldable pub transform : S → Text → Text × S
  transform s [] = ([], s)
  transform s (b ∷ bs) = let rest = transform (step s b).1 bs in ((step s b).0 ++ rest.0, rest.1)

  unfoldable pub transform_all : S → List Text → Text × S
  unfolding transform
  transform_all s [] = ([], s)
  transform_all s (d ∷ ds) =
      let rest = transform_all (transform s d).1 ds in ((transform s d).0 ++ rest.0, rest.1)

  pub transform-append :
      (s : S) (xs ys : Text)
      → transform s (xs ++ ys) ≡ (
        (transform s xs).0 ++ (transform (transform s xs).1 ys).0,
        (transform (transform s xs).1 ys).1,
      )
  unfolding transform
  transform-append s [] ys = refl
  transform-append s (b ∷ bs) ys = rw (transform-append (step s b).1 bs ys) (
      ap (λ t. (t, (transform (transform (step s b).1 bs).1 ys).1))
        (sym (
          append_assoc (step s b).0 (transform (step s b).1 bs).0
            (transform (transform (step s b).1 bs).1 ys).0)))

  -- The bounds of the chunks do not matter.
  pub transform_all-concat : (s : S) (ds : List Text) → transform_all s ds ≡ transform s (concat ds)
  unfolding transform_all transform
  transform_all-concat s [] = refl
  transform_all-concat s (d ∷ ds) =
      rw (transform_all-concat (transform s d).1 ds) (sym (transform-append s d (concat ds)))
