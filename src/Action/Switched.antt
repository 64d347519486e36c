-- ===== src/Action/Switched.antt =====
-- openmux/server/actions/session.py: which outlets an action script can switch.
use openmux_server.Base.{
  ℕ, ◌+◌, ◌≡◌, append-nil, append_assoc, refl, sym, ◌∙◌, ap, subst, ◌⊎◌, inl, inr, Bool, some, List,
  [], ◌∷◌, ◌++◌, Text, count, count-append, All, All-append, arith, Bool-cases,
}
use openmux_server.Action.{ActionError}
use openmux_server.Action.Power.{
  Ref, omitted, single, several, power_target_refs, Switched, Calls, Pdu, power_switch_one,
  is_there, add_skipped, add_outcome, switch_many, power_switch_many, nothing, power_switch,
  switch_refs, is_any, answer_one, power_blocked_ports, mapped_ports_for_ref,
}
use openmux_server.Action.Blocked.{MayDriveAll, power_blocked_ports-MayDriveAll}
use openmux_server.Results.{Result, returned, raised, Result-cases}
use openmux_server.Action.Targets.{IsFeed, power_target_refs-IsFeed}

refs_cases :
    (declared : List Text) (ref : Ref)
    → ((e : ActionError) × (power_target_refs declared ref ≡ raised e))
      ⊎ ((refs : List Text) × (power_target_refs declared ref ≡ returned refs))
refs_cases declared ref = Result-cases (power_target_refs declared ref)

-- A call of `set_outlet` that the script may make: of such a feed, to the state that it asked for,
-- where the user may drive every console that declares the outlet.
abbrev IsConfined : Pdu → List Text → Bool → Text × Bool → Type 0
IsConfined pdu declared on c =
    IsFeed declared c.0
    × MayDriveAll pdu.username pdu.console_manager (mapped_ports_for_ref c.0 pdu.port_refs)
    × (c.1 ≡ on)

-- Calls that go on with such calls only.
abbrev pub Extends : Pdu → List Text → Bool → Calls → Calls → Type 0
Extends pdu declared on calls after =
    (new : Calls) × (after ≡ calls ++ new) × All (IsConfined pdu declared on) new

module _ (pdu : Pdu) (declared : List Text) (on : Bool) where
  Extends-refl : (calls : Calls) → Extends pdu declared on calls calls
  Extends-refl calls = ([], sym (append-nil calls), tt)

  Extends-trans :
      (a b c : Calls)
      → Extends pdu declared on a b
      → Extends pdu declared on b c
      → Extends pdu declared on a c
  Extends-trans a b c (n, e, h) (m, f, k) = (
    n ++ m,
    f ∙ ap (λ z. z ++ m) e ∙ append_assoc a n m,
    All-append (IsConfined pdu declared on) n m h k,
  )

  power_switch_one-Extends :
      (r : Text) (calls : Calls)
      → IsFeed declared r
      → Extends pdu declared on calls (power_switch_one pdu r on calls).1
  unfolding power_switch_one
  power_switch_one-Extends r calls f = elim (Bool-cases (is_any (power_blocked_ports pdu r))) [
    | inl e ↦ rw e (Extends-refl calls)
    | inr e ↦
        let d = power_blocked_ports-MayDriveAll pdu r e in
        rw e elim (Bool-cases (pdu.set_outlet calls r on)) [
          | inl g ↦ rw g ((r, on) ∷ [], refl, ((f, d, refl), tt))
          | inr g ↦ rw g ((r, on) ∷ [], refl, ((f, d, refl), tt))
        ]
  ]

  switch_many-Extends :
      (rs : List Text) (s : Switched) (calls : Calls)
      → All (IsFeed declared) rs
      → Extends pdu declared on calls (switch_many pdu rs on s calls).1
  unfolding switch_many
  switch_many-Extends [] s calls h = Extends-refl calls
  switch_many-Extends (r ∷ rs) s calls h = elim (Bool-cases (is_there (pdu.feed_states r) on)) [
    | inl e ↦ rw e (switch_many-Extends rs (add_skipped r s) calls h.1)
    | inr e ↦ rw e (
        Extends-trans calls (power_switch_one pdu r on calls).1
          (switch_many pdu rs on (add_outcome r (power_switch_one pdu r on calls).0 s)
            (power_switch_one pdu r on calls).1).1
          (power_switch_one-Extends r calls h.0)
          (switch_many-Extends rs (add_outcome r (power_switch_one pdu r on calls).0 s)
            (power_switch_one pdu r on calls).1 h.1))
  ]

  answer_one-calls : (x : Result ActionError Unit × Calls) → (answer_one x).1 ≡ x.1
  answer_one-calls (returned u, calls) = refl
  answer_one-calls (raised e, calls) = refl

  switched :
      (ref : Ref) (refs : List Text) (calls : Calls)
      → All (IsFeed declared) refs
      → Extends pdu declared on calls (switch_refs pdu ref on calls (returned refs)).1
  unfolding power_switch_many
  switched omitted refs calls h = switch_many-Extends refs nothing calls h
  switched (several rs) refs calls h = switch_many-Extends refs nothing calls h
  switched (single r) [] calls h = Extends-refl calls
  switched (single r) (q ∷ qs) calls h =
      subst (Extends pdu declared on calls)
        (sym (answer_one-calls (power_switch_one pdu q on calls)))
        (power_switch_one-Extends q calls h.0)

  -- Whatever a script asks of the power control of its port, the calls of the PDU adapter that it
  -- adds are each of an outlet that the port declares and that no other server owns, to the state that
  -- was asked for; and the user may drive every console that declares the outlet, as the access
  -- ladder has it, where the run has a user name and there is a console manager whose check does not
  -- raise.
  pub power_switch-Extends :
      (ref : Ref) (calls : Calls)
      → Extends pdu declared on calls (power_switch (some pdu) declared ref on calls).1
  unfolding power_switch power_switch_many
  power_switch-Extends ref calls = elim (refs_cases declared ref) [
    | inl (e, h) ↦ rw h (Extends-refl calls)
    | inr (refs, h) ↦
        rw h (switched ref refs calls (power_target_refs-IsFeed declared ref refs h).2)
  ]

module _ (p : Text → Bool) where
  total : Switched → ℕ
  total s = count p s.changed + count p s.skipped + count p s.failed

  one : Text → ℕ
  one r = count p (r ∷ [])

  total-add_skipped : (r : Text) (s : Switched) → total (add_skipped r s) ≡ total s + one r
  unfolding total one
  total-add_skipped r s = omega (arith, count-append p s.skipped (r ∷ []))

  total-add_outcome :
      (r : Text) (o : Result ActionError Unit) (s : Switched)
      → total (add_outcome r o s) ≡ total s + one r
  unfolding total one
  total-add_outcome r (returned u) s = omega (arith, count-append p s.changed (r ∷ []))
  total-add_outcome r (raised e) s = omega (arith, count-append p s.failed (r ∷ []))

  total-switch_many :
      (pdu : Pdu) (on : Bool) (rs : List Text) (s : Switched) (calls : Calls)
      → total (switch_many pdu rs on s calls).0 ≡ total s + count p rs
  unfolding switch_many one
  total-switch_many pdu on [] s calls = omega arith
  total-switch_many pdu on (r ∷ rs) s calls = elim (Bool-cases (is_there (pdu.feed_states r) on)) [
    | inl e ↦
        rw e (
          omega (arith, total-switch_many pdu on rs (add_skipped r s) calls, total-add_skipped r s))
    | inr e ↦ rw e (
        omega (
          arith,
          total-switch_many pdu on rs (add_outcome r (power_switch_one pdu r on calls).0 s)
              (power_switch_one pdu r on calls).1,
          total-add_outcome r (power_switch_one pdu r on calls).0 s,
        ))
  ]

  -- When a list of outlets is switched, each of them is reported as changed, as skipped or as failed,
  -- as often in all as it was given: for any test, as many outlets pass it in the three lists together
  -- as in the list that was given.
  pub power_switch_many_reports :
      (pdu : Pdu) (refs : List Text) (on : Bool) (calls : Calls)
      → count p (power_switch_many pdu refs on calls).0.changed
          + count p (power_switch_many pdu refs on calls).0.skipped
          + count p (power_switch_many pdu refs on calls).0.failed
        ≡ count p refs
  unfolding power_switch_many total
  power_switch_many_reports pdu refs on calls =
      omega (arith, total-switch_many pdu on refs nothing calls)
