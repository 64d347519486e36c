-- ===== src/Auth/Lockout.antt =====
-- openmux/server/auth_manager.py: the tracker of failed logins of one (user name, address) pair
-- (`register_auth_failure`, `is_user_locked`, `clear_auth_failures`). A time is a whole number of
-- seconds; the clock may not run backwards.
use openmux_server.Base.{
  ℕ, ◌+◌, ◌-◌, ◌*◌, ◌^◌, ◌≤◌, ◌<◌, min, max, ◌≡◌, refl, ◌∙◌, sym, ap, Bool, true, false, Option,
  none, some, List, [], ◌∷◌, arith, ltb, leb, length, if◌then◌else◌, Bool-cases, inl, inr,
}

-- The limits, after `_apply_security_policy`.
pub record Limits : Type 0 where
  pub max_fail_window : ℕ
  pub base_lock_seconds : ℕ
  pub failure_threshold : ℕ

pub record Failures : Type 0 where
  pub failures : ℕ
  pub first_failure : ℕ
  pub locked_until : ℕ

-- The lock doubles with each failure past the threshold, up to an hour.
unfoldable pub lock_seconds : Limits → ℕ → ℕ
lock_seconds l failures = min (l.base_lock_seconds * 2 ^ (failures - l.failure_threshold)) 3600

abbrev first_of : ℕ → Failures
first_of now = record { failures = 1; first_failure = now; locked_until = 0 }

abbrev pub is_over : Limits → ℕ → Failures → Bool
is_over l now r = ltb l.max_fail_window (now - r.first_failure)

unfoldable pub count_failure : Limits → ℕ → Failures → Failures
count_failure l now r =
    if is_over l now r
    then first_of now
    else if leb l.failure_threshold (r.failures + 1)
    then record r {
      failures = r.failures + 1;
      locked_until = max r.locked_until (now + lock_seconds l (r.failures + 1));
    }
    else record r { failures = r.failures + 1 }

abbrev fail_record : Limits → ℕ → Option Failures → Failures
fail_record l now none = first_of now
fail_record l now (some r) = count_failure l now r

unfoldable pub register_auth_failure : Limits → ℕ → Option Failures → Option Failures
register_auth_failure l now o = some (fail_record l now o)

-- The answer, and the record afterwards: a lock that ran out is cleared, and a record whose window
-- closed is dropped.
abbrev expire : Limits → ℕ → Failures → Option Failures
expire l now r = if is_over l now r then none else some (record r { locked_until = 0 })

unfoldable pub is_user_locked : Limits → ℕ → Option Failures → Bool × Option Failures
is_user_locked l now none = (false, none)
is_user_locked l now (some r) =
    if ltb now r.locked_until then (true, some r) else (false, expire l now r)

-- A failed login that is not locked out asks first, and then counts; a locked one is turned away.
unfoldable pub failed_login : Limits → ℕ → Option Failures → Option Failures
failed_login l now o =
    let (locked, r) = is_user_locked l now o in if locked then r else register_auth_failure l now r

unlocked : (now : ℕ) → ltb now 0 ≡ false
unlocked now = ground arith

open_window :
    (l : Limits) (now : ℕ) (r : Failures)
    → now ≤ r.first_failure + l.max_fail_window
    → is_over l now r ≡ false
open_window l now r h = ground arith

free :
    (l : Limits) (now : ℕ) (r : Failures)
    → (is_user_locked l now (some (record r { locked_until = 0 }))).0 ≡ false
unfolding is_user_locked
free l now r = rw (unlocked now) refl

unfoldable pub failed_logins : Limits → List ℕ → Option Failures → Option Failures
failed_logins l [] o = o
failed_logins l (t ∷ ts) o = failed_logins l ts (failed_login l t o)

abbrev pub AllBy : ℕ → List ℕ → Type 0
AllBy end [] = Unit
AllBy end (t ∷ ts) = (t ≤ end) × AllBy end ts

-- While the window is open, asking keeps the record with its count and its start, and the same
-- question to the record that is left gets the same answer.
is_user_locked_keeps :
    (l : Limits) (now : ℕ) (r : Failures)
    → now ≤ r.first_failure + l.max_fail_window
    → (s : Failures) × ((is_user_locked l now (some r)).1 ≡ some s)
      × (s.failures ≡ r.failures)
      × (s.first_failure ≡ r.first_failure)
      × ((is_user_locked l now (some s)).0 ≡ (is_user_locked l now (some r)).0)
unfolding is_user_locked
is_user_locked_keeps l now r h = elim (Bool-cases (ltb now r.locked_until)) [
  | inl e ↦ (r, rw e refl, refl, refl, refl)
  | inr e ↦ (
    record r { locked_until = 0 },
    rw e (rw (open_window l now r h) refl),
    refl,
    refl,
    free l now r ∙ sym (rw e refl),
  )
]

-- If the lock of a record ends within an hour of now, so does its lock after a failure now.
lock_bounded :
    (l : Limits) (now : ℕ) (r s : Failures)
    → r.locked_until ≤ now + 3600
    → register_auth_failure l now (some r) ≡ some s
    → s.locked_until ≤ now + 3600
unfolding register_auth_failure count_failure lock_seconds
lock_bounded l now r s h e = ground arith

at_threshold : (a b : ℕ) → a ≤ b → leb a b ≡ true
at_threshold a b h = ground arith

still_locked : (t a b : ℕ) → t < b → ltb t (max a b) ≡ true
still_locked t a b h = ground arith

-- A failure that reaches the threshold while the window is open locks: whoever asks before the end
-- of the lock is turned away, and asking leaves the record as it is.
register_auth_failure_locks :
    (l : Limits) (now t : ℕ) (r : Failures)
    → now ≤ r.first_failure + l.max_fail_window
    → l.failure_threshold ≤ r.failures + 1
    → t < now + lock_seconds l (r.failures + 1)
    → (s : Failures) × (register_auth_failure l now (some r) ≡ some s)
      × (is_user_locked l t (some s) ≡ (true, some s))
unfolding register_auth_failure count_failure is_user_locked
register_auth_failure_locks l now t r window enough soon = (
  record r {
    failures = r.failures + 1;
    locked_until = max r.locked_until (now + lock_seconds l (r.failures + 1));
  },
  rw (open_window l now r window, at_threshold l.failure_threshold (r.failures + 1) enough) refl,
  rw (still_locked t r.locked_until (now + lock_seconds l (r.failures + 1)) soon) refl,
)

below_threshold : (a b : ℕ) → b < a → leb a b ≡ false
below_threshold a b h = ground arith

the_difference : (a b : ℕ) → a ≡ b → a - b ≡ 0
the_difference a b e = omega arith

exponent : (a b : ℕ) → a ≡ b → 2 ^ (a - b) ≡ 1
exponent a b e = rw (the_difference a b e) refl

times_one : (a : ℕ) → a * 1 ≡ a
times_one a = omega arith

module _ (l : Limits) (now start n : ℕ) (window : now ≤ start + l.max_fail_window) where
  abbrev free_record : Failures
  free_record = record { failures = n; first_failure = start; locked_until = 0 }

  asked : is_user_locked l now (some free_record) ≡ (false, some free_record)
  unfolding is_user_locked
  asked = rw (unlocked now, open_window l now free_record window) refl

  registered :
      n + 1 < l.failure_threshold
      → register_auth_failure l now (some free_record)
        ≡ some (record { failures = n + 1; first_failure = start; locked_until = 0 })
  unfolding register_auth_failure count_failure
  registered few =
      rw (open_window l now free_record window, below_threshold l.failure_threshold (n + 1) few)
        refl

  counted :
      n + 1 < l.failure_threshold
      → failed_login l now (some free_record)
        ≡ some (record { failures = n + 1; first_failure = start; locked_until = 0 })
  unfolding failed_login
  counted few = rw asked (registered few)

abbrev pub with_failures : ℕ → ℕ → Option Failures
with_failures start m = some (record { failures = m; first_failure = start; locked_until = 0 })

failed_logins-count :
    (l : Limits) (start n : ℕ) (ts : List ℕ)
    → AllBy (start + l.max_fail_window) ts
    → n + length ts < l.failure_threshold
    → failed_logins l ts (with_failures start n) ≡ with_failures start (n + length ts)
unfolding failed_logins
failed_logins-count l start n [] all few = ap (with_failures start) (omega arith)
failed_logins-count l start n (t ∷ ts) (h, all) few = rw (counted l t start n h (omega arith)) (
    failed_logins-count l start (n + 1) ts all (omega arith)
    ∙ ap (with_failures start) (omega arith))

first_login : (l : Limits) (start : ℕ) → failed_login l start none ≡ with_failures start 1
unfolding failed_login is_user_locked register_auth_failure
first_login l start = refl

lock_seconds_first :
    (l : Limits) (n : ℕ) → n ≡ l.failure_threshold → lock_seconds l n ≡ min l.base_lock_seconds 3600
unfolding lock_seconds
lock_seconds_first l n e = rw (exponent n l.failure_threshold e, times_one l.base_lock_seconds) refl

-- The lockout is reached: from no record, as many failed logins as the threshold, which is two or
-- more, all by the end of the window that the first opens, lock the pair for the base time (an
-- hour at most) after the last of them, although each of them asks first whether the pair is
-- locked.
pub failed_logins-is_user_locked :
    (l : Limits) (start last t : ℕ) (ts : List ℕ)
    → AllBy (start + l.max_fail_window) ts
    → last ≤ start + l.max_fail_window
    → length ts + 2 ≡ l.failure_threshold
    → t < last + min l.base_lock_seconds 3600
    → (is_user_locked l t (failed_login l last (failed_logins l ts (failed_login l start none)))).0
      ≡ true
unfolding failed_login
failed_logins-is_user_locked l start last t ts all window reached soon =
    let (s, e, locked) =
      register_auth_failure_locks l last t (free_record l last start (1 + length ts) window) window
        (omega arith) (rw (lock_seconds_first l (1 + length ts + 1) (omega arith)) soon) in
    rw (first_login l start, failed_logins-count l start 1 ts all (omega arith))
      (rw (asked l last start (1 + length ts) window) (rw e (ap (λ a. a.0) locked)))
