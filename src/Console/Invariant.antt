-- ===== src/Console/Invariant.antt =====
-- The write slots under every request of openmux/server/console_manager.py, whatever the other tasks
-- do while a request waits, as long as they keep the invariant too.
use openmux_server.Base.{◌≡◌, Bool, true, false, Option, none, some, Text, arith, if◌then◌else◌}
use openmux_server.Decision.Codes.{Mode, read_only, Code}
use openmux_server.Ports.{Port, add_client, promote, demote, remove_client}
use openmux_server.Ports.Records.{Client}
use openmux_server.Ports.Slots.{
  IsSound, AllSound, IsSoundAll, update_port-IsSoundAll, add_client-AllSound, promote-AllSound,
  demote-AllSound, remove_client-AllSound,
}
use openmux_server.Console.World.{
  World, Outside, Action, next, pure, lift, gets, modify, ◌>>=◌, ◌>>◌, pause, pause_if, change_port,
  is_remote, promote_client, demote_client, set_client_port, unset_client_port, answer_plain,
  answer_capped, answer_seated,
}
use openmux_server.Console.Ask.{
  seat_refusal, request_federated_promotion, promote_checked, promote_client_to_read_write,
  demote_client_to_read_only, promote_unless,
}

-- An action that leaves every port sound.
pub record Keeps {A : Type 0} (m : Action A) : Type 0 where
  pub apply : (w : World) → IsSoundAll w.ports → IsSoundAll (m w).1.ports

module _ {A B : Type 0} (m : Action A) where
  pub bind-Keeps : (f : A → Action B) → Keeps m → ((a : A) → Keeps (f a)) → Keeps (m >>= f)
  unfolding ◌>>=◌
  bind-Keeps f km kf = record { apply = λ w s. go (m w) (km.apply w s) }
    where
      go : (r : Option A × World) → IsSoundAll r.1.ports → IsSoundAll (next f r).1.ports
      go (some a, w') s = (kf a).apply w' s
      go (none, w') s = s

  pub then-Keeps : (k : Action B) → Keeps m → Keeps k → Keeps (m >> k)
  unfolding ◌>>◌
  then-Keeps k km kk = bind-Keeps (λ _. k) km (λ _. kk)

module _ {A : Type 0} where
  pub pure-Keeps : (a : A) → Keeps (pure a)
  unfolding pure
  pure-Keeps a = record { apply = λ w s. s }

  pub lift-Keeps : (r : Option A) → Keeps (lift r)
  unfolding lift
  lift-Keeps r = record { apply = λ w s. s }

  pub gets-Keeps : (f : World → A) → Keeps (gets f)
  unfolding gets
  gets-Keeps f = record { apply = λ w s. s }

  pub if-Keeps : (b : Bool) (m n : Action A) → Keeps m → Keeps n → Keeps (if b then m else n)
  if-Keeps true m n km kn = km
  if-Keeps false m n km kn = kn

pub modify-Keeps : (f : World → World) → ((w : World) → (f w).ports ≡ w.ports) → Keeps (modify f)
unfolding modify
modify-Keeps f same_ports = record { apply = λ w s. rw (same_ports w) s }

pub change_port-Keeps :
    (name : Text) (f : Port → Option Port)
    → ((p : Port) → IsSound p → AllSound (f p))
    → Keeps (change_port name f)
unfolding change_port
change_port-Keeps name f keep = record {
  apply = λ w s. update_port-IsSoundAll name f keep w.ports s;
}

pub promote_client-Keeps : (name cid : Text) → Keeps (promote_client name cid)
unfolding promote_client
promote_client-Keeps name cid = change_port-Keeps name (promote cid) (promote-AllSound cid)

pub demote_client-Keeps : (name cid : Text) → Keeps (demote_client name cid)
unfolding demote_client
demote_client-Keeps name cid = change_port-Keeps name (demote cid) (demote-AllSound cid)

pub add_client-Keeps : (name : Text) (c : Client) → Keeps (change_port name (add_client c))
add_client-Keeps name c = change_port-Keeps name (add_client c) (add_client-AllSound c)

pub drop_client-Keeps : (name cid : Text) → Keeps (change_port name (remove_client cid))
drop_client-Keeps name cid = change_port-Keeps name (remove_client cid) (remove_client-AllSound cid)

pub set_client_port-Keeps : (cid name : Text) → Keeps (set_client_port cid name)
unfolding set_client_port modify
set_client_port-Keeps cid name = record { apply = λ w s. s }

pub unset_client_port-Keeps : (cid : Text) → Keeps (unset_client_port cid)
unfolding unset_client_port
unset_client_port-Keeps cid = record { apply = λ w s. ground (arith, s) }

pub answer_plain-Keeps : (c : Code) (m : Mode) (cid name : Text) → Keeps (answer_plain c m cid name)
unfolding answer_plain
answer_plain-Keeps c m cid name = lift-Keeps _

pub answer_capped-Keeps :
    (c : Code) (m : Mode) (cid name : Text) → Keeps (answer_capped c m cid name)
unfolding answer_capped
answer_capped-Keeps c m cid name = record { apply = λ w s. s }

pub ruleset keeping = (
  bind-Keeps, then-Keeps, pure-Keeps, lift-Keeps, gets-Keeps, if-Keeps, promote_client-Keeps,
  demote_client-Keeps, add_client-Keeps, drop_client-Keeps, set_client_port-Keeps,
  unset_client_port-Keeps, answer_plain-Keeps, answer_capped-Keeps,
)

module _ (o : Outside) (others : Keeps (pause o)) where
  pub pause_if-Keeps : (b : Bool) → Keeps (pause_if o b)
  unfolding pause_if
  pause_if-Keeps b = search keeping

  pub answer_seated-Keeps :
      (c : Code) (m : Mode) (cid name : Text) → Keeps (answer_seated o c m cid name)
  unfolding answer_seated
  answer_seated-Keeps c m cid name = record { apply = λ w s. s }

  pub seat_refusal-Keeps : (name cid : Text) → Keeps (seat_refusal o name cid)
  unfolding seat_refusal
  seat_refusal-Keeps name cid = search (keeping, answer_seated-Keeps)

  pub request_federated_promotion-Keeps :
      (name cid : Text) → Keeps (request_federated_promotion o name cid)
  unfolding request_federated_promotion
  request_federated_promotion-Keeps name cid = search keeping

  pub promote_checked-Keeps :
      (remote : Bool) (cid name : Text) → Keeps (promote_checked o remote cid name)
  unfolding promote_checked
  promote_checked-Keeps remote cid name =
      search (keeping, answer_seated-Keeps, seat_refusal-Keeps, request_federated_promotion-Keeps)
        depth 8

  pub promote_unless-Keeps :
      (port : Option Port) (cid name : Text) (c : Option Code)
      → Keeps (promote_unless o port cid name c)
  unfolding promote_unless
  promote_unless-Keeps port cid name none = promote_checked-Keeps (is_remote port) cid name
  promote_unless-Keeps port cid name (some c) = answer_seated-Keeps c read_only cid name

  pub promote_client_to_read_write-Keeps :
      (cid name : Text) → Keeps (promote_client_to_read_write o cid name)
  unfolding promote_client_to_read_write
  promote_client_to_read_write-Keeps cid name = search (keeping, promote_unless-Keeps) depth 8

  pub demote_client_to_read_only-Keeps :
      (notify_origin : Bool) (cid name : Text)
      → Keeps (demote_client_to_read_only o notify_origin cid name)
  unfolding demote_client_to_read_only
  demote_client_to_read_only-Keeps notify_origin cid name =
      search (keeping, pause_if-Keeps, answer_seated-Keeps) depth 10
