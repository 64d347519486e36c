-- ===== src/Ports/Slots.antt =====
-- The write-slot invariant of a port (openmux/server/port_manager.py): distinct client ids, and no
-- more writers than the capacity allows. Every operation keeps it.
use openmux_server.Base.{
  ℕ, ◌+◌, ◌≤◌, ◌≡◌, refl, true, false, ◌&&◌, not, Option, none, some, List, [], ◌∷◌, Text, same,
  same_iff, subst, Bool-cases, inl, inr, arith, if◌then◌else◌,
}
use openmux_server.Capacity.{Amount, finite, unlimited, write_capacity, is_full}
use openmux_server.Decision.Codes.{Mode, read_write, read_only}
use openmux_server.Dict.{lookup, insert}
use openmux_server.Ports.Records.{
  Client, is_rw, holds_rw, is_attached, upsert, remove_first, set_mode,
}
use openmux_server.Ports.{
  Port, Ports, others_rw, writers, add_client, promote, demote, remove_client, update_port, stored,
  on_port,
}

abbrev pub Fits : ℕ → Amount → Type 0
Fits n (finite k) = n ≤ k
Fits n unlimited = Unit

-- No two records have one id.
abbrev pub IsDistinct : List Client → Type 0
IsDistinct [] = Unit
IsDistinct (c ∷ cs) = (is_attached c.client_id cs ≡ false) × IsDistinct cs

pub record IsSound (p : Port) : Type 0 where
  pub distinct : IsDistinct p.connected_clients
  pub within : Fits (writers p.connected_clients) (write_capacity p.max_read_write_users)

pub is_attached-set_mode :
    (j cid : Text) (m : Mode) (cs : List Client)
    → is_attached j (set_mode cid m cs) ≡ is_attached j cs
is_attached-set_mode j cid m [] = refl
is_attached-set_mode j cid m (c ∷ cs) = ground (arith, is_attached-set_mode j cid m cs)

is_attached-remove_first :
    (j cid : Text) (cs : List Client)
    → is_attached j cs ≡ false
    → is_attached j (remove_first cid cs) ≡ false
is_attached-remove_first j cid [] h = refl
is_attached-remove_first j cid (c ∷ cs) h = ground (arith, is_attached-remove_first j cid cs)

is_attached-upsert :
    (j : Text) (n : Client) (cs : List Client)
    → same n.client_id j ≡ false
    → is_attached j cs ≡ false
    → is_attached j (upsert n cs) ≡ false
is_attached-upsert j n [] h k = ground arith
is_attached-upsert j n (c ∷ cs) h k = ground (arith, is_attached-upsert j n cs)

set_mode-IsDistinct :
    (cid : Text) (m : Mode) (cs : List Client) → IsDistinct cs → IsDistinct (set_mode cid m cs)
set_mode-IsDistinct cid m [] h = tt
set_mode-IsDistinct cid m (c ∷ cs) h =
    ground (arith, set_mode-IsDistinct cid m cs h.1, is_attached-set_mode c.client_id cid m cs)

remove_first-IsDistinct :
    (cid : Text) (cs : List Client) → IsDistinct cs → IsDistinct (remove_first cid cs)
remove_first-IsDistinct cid [] h = tt
remove_first-IsDistinct cid (c ∷ cs) h =
    ground
      (arith, remove_first-IsDistinct cid cs h.1, is_attached-remove_first c.client_id cid cs h.0)

upsert-IsDistinct : (n : Client) (cs : List Client) → IsDistinct cs → IsDistinct (upsert n cs)
upsert-IsDistinct n [] h = ground arith
upsert-IsDistinct n (c ∷ cs) h = ground (
  arith,
  same_iff c.client_id n.client_id,
  same_iff n.client_id c.client_id,
  upsert-IsDistinct n cs h.1,
  is_attached-upsert c.client_id n cs,
)

-- Demoting or removing a client, or a mode that is not read-write, adds no writer.
writers-set_mode_le :
    (cid : Text) (cs : List Client) → writers (set_mode cid read_only cs) ≤ writers cs
writers-set_mode_le cid [] = omega arith
writers-set_mode_le cid (c ∷ cs) = ground (arith, writers-set_mode_le cid cs)

writers-remove_first_le :
    (cid : Text) (cs : List Client) → writers (remove_first cid cs) ≤ writers cs
writers-remove_first_le cid [] = omega arith
writers-remove_first_le cid (c ∷ cs) = ground (arith, writers-remove_first_le cid cs)

writers-promote_le :
    (cid : Text) (cs : List Client) → writers (set_mode cid read_write cs) ≤ writers cs + 1
writers-promote_le cid [] = omega arith
writers-promote_le cid (c ∷ cs) = ground (arith, writers-promote_le cid cs)

pub holds_rw→is_attached :
    (cid : Text) (cs : List Client) → holds_rw cid cs ≡ true → is_attached cid cs ≡ true
holds_rw→is_attached cid [] k = cc
holds_rw→is_attached cid (c ∷ cs) k = ground (arith, holds_rw→is_attached cid cs)

-- With distinct ids, a client that holds the slot already is promoted in place.
writers-promote_held :
    (cid : Text) (cs : List Client)
    → IsDistinct cs
    → holds_rw cid cs ≡ true
    → writers (set_mode cid read_write cs) ≡ writers cs
writers-promote_held cid [] h k = cc
writers-promote_held cid (c ∷ cs) h k =
    ground (
      arith,
      same_iff c.client_id cid,
      holds_rw→is_attached cid cs,
      writers-promote_held cid cs h.1,
    )

pub others_rw_le : (cid : Text) (cs : List Client) → others_rw cid cs ≤ writers cs
others_rw_le cid [] = omega arith
others_rw_le cid (c ∷ cs) = ground (arith, others_rw_le cid cs)

others_rw_absent :
    (cid : Text) (cs : List Client) → is_attached cid cs ≡ false → others_rw cid cs ≡ writers cs
others_rw_absent cid [] h = refl
others_rw_absent cid (c ∷ cs) h = ground (arith, others_rw_absent cid cs)

-- Counting the writers of a list with a record put in: the others, and the record itself.
writers-upsert :
    (n : Client) (cs : List Client)
    → IsDistinct cs
    → writers (upsert n cs) ≡ (if is_rw n then 1 else 0) + others_rw n.client_id cs
writers-upsert n [] h = omega arith
writers-upsert n (c ∷ cs) h = elim (Bool-cases (same c.client_id n.client_id)) [
  | inl e ↦ rw e (
      ground (
        arith,
        others_rw_absent n.client_id cs,
        subst (λ i. is_attached i cs ≡ false) ((same_iff c.client_id n.client_id).0 e) h.0,
      ))
  | inr e ↦ rw e (ground (arith, writers-upsert n cs h.1))
]

-- The seat test lets one more writer in only below the capacity.
Fits-suc : (n : ℕ) (a : Amount) → is_full n a ≡ false → Fits (1 + n) a
Fits-suc n (finite k) h = ground arith
Fits-suc n unlimited h = tt

Fits-le : (m n : ℕ) (a : Amount) → m ≤ n → Fits n a → Fits m a
Fits-le m n (finite k) h f = omega arith
Fits-le m n unlimited h f = tt

-- A refused operation changes nothing, and one that is done leaves a sound port.
abbrev pub AllSound : Option Port → Type 0
AllSound none = Unit
AllSound (some p) = IsSound p

upsert-IsSound :
    (c : Client) (p : Port)
    → IsSound p
    → (is_rw c
        && is_full
            (others_rw c.client_id p.connected_clients)
            (write_capacity p.max_read_write_users))
      ≡ false
    → Fits (writers (upsert c p.connected_clients)) (write_capacity p.max_read_write_users)
upsert-IsSound c p s e = elim (Bool-cases (is_rw c)) [
  | inl w ↦
      rw (writers-upsert c p.connected_clients s.distinct, w)
        (Fits-suc (others_rw c.client_id p.connected_clients)
          (write_capacity p.max_read_write_users) (rw w at e))
  | inr r ↦
      rw (writers-upsert c p.connected_clients s.distinct, r)
        (Fits-le (0 + others_rw c.client_id p.connected_clients) (writers p.connected_clients)
          (write_capacity p.max_read_write_users)
          (omega (arith, others_rw_le c.client_id p.connected_clients)) s.within)
]

pub add_client-AllSound : (c : Client) (p : Port) → IsSound p → AllSound (add_client c p)
unfolding add_client
add_client-AllSound c p s =
    ground (arith, upsert-IsSound c p s, upsert-IsDistinct c p.connected_clients s.distinct)

promote-Fits :
    (cid : Text) (p : Port)
    → IsSound p
    → (not (holds_rw cid p.connected_clients)
        && is_full (writers p.connected_clients) (write_capacity p.max_read_write_users))
      ≡ false
    → Fits
        (writers (set_mode cid read_write p.connected_clients))
        (write_capacity p.max_read_write_users)
promote-Fits cid p s e = elim (Bool-cases (holds_rw cid p.connected_clients)) [
  | inl held ↦ rw (writers-promote_held cid p.connected_clients s.distinct held) s.within
  | inr free ↦
      Fits-le _ (1 + writers p.connected_clients) (write_capacity p.max_read_write_users)
        (omega (arith, writers-promote_le cid p.connected_clients))
        (Fits-suc (writers p.connected_clients) (write_capacity p.max_read_write_users)
          (rw free at e))
]

pub promote-AllSound : (cid : Text) (p : Port) → IsSound p → AllSound (promote cid p)
unfolding promote
promote-AllSound cid p s =
    ground (
      arith,
      promote-Fits cid p s,
      set_mode-IsDistinct cid read_write p.connected_clients s.distinct,
    )

pub demote-AllSound : (cid : Text) (p : Port) → IsSound p → AllSound (demote cid p)
unfolding demote
demote-AllSound cid p s = ground (
  arith,
  Fits-le _ _ (write_capacity p.max_read_write_users) (writers-set_mode_le cid p.connected_clients)
      s.within,
  set_mode-IsDistinct cid read_only p.connected_clients s.distinct,
)

pub remove_client-AllSound : (cid : Text) (p : Port) → IsSound p → AllSound (remove_client cid p)
unfolding remove_client
remove_client-AllSound cid p s = ground (
  arith,
  Fits-le _ _ (write_capacity p.max_read_write_users)
      (writers-remove_first_le cid p.connected_clients) s.within,
  remove_first-IsDistinct cid p.connected_clients s.distinct,
)

-- Every port of the server is sound.
abbrev pub IsSoundAll : Ports → Type 0
IsSoundAll [] = Unit
IsSoundAll ((k, p) ∷ ps) = IsSound p × IsSoundAll ps

pub lookup-AllSound : (k : Text) (ps : Ports) → IsSoundAll ps → AllSound (lookup k ps)
unfolding lookup
lookup-AllSound k [] h = tt
lookup-AllSound k ((j, p) ∷ ps) h = elim (Bool-cases (same j k)) [
  | inl e ↦ rw e h.0
  | inr e ↦ rw e (lookup-AllSound k ps h.1)
]

insert-IsSoundAll :
    (k : Text) (p : Port) (ps : Ports) → IsSound p → IsSoundAll ps → IsSoundAll (insert k p ps)
unfolding insert
insert-IsSoundAll k p [] s h = (s, tt)
insert-IsSoundAll k p ((j, q) ∷ ps) s h = elim (Bool-cases (same j k)) [
  | inl e ↦ rw e (s, h.1)
  | inr e ↦ rw e (h.0, insert-IsSoundAll k p ps s h.1)
]

stored-IsSoundAll :
    (k : Text) (ps : Ports) (r : Option Port)
    → IsSoundAll ps
    → AllSound r
    → IsSoundAll (stored k ps r).1
stored-IsSoundAll k ps none h s = h
stored-IsSoundAll k ps (some p) h s = insert-IsSoundAll k p ps s h

-- An operation that keeps one port sound keeps all sound.
pub update_port-IsSoundAll :
    (k : Text) (f : Port → Option Port)
    → ((p : Port) → IsSound p → AllSound (f p))
    → (ps : Ports) → IsSoundAll ps
    → IsSoundAll (update_port k f ps).1
unfolding update_port
update_port-IsSoundAll k f keep ps h = go (lookup k ps) (lookup-AllSound k ps h)
  where
    go : (o : Option Port) → AllSound o → IsSoundAll (on_port k ps f o).1
    go none s = h
    go (some p) s = stored-IsSoundAll k ps (f p) h (keep p s)
