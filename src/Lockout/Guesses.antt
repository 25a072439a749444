-- ===== src/Lockout/Guesses.antt =====
-- How often a PIN is compared: `verifyPinWithLockout` of src/common/lockout/lockout.service.ts.
use sentry_pos_be.Common.{
  ℕ, ◌+◌, ◌-◌, ◌*◌, ◌/◌, ◌≤◌, ◌<◌, ◌≡◌, refl, ◌⊎◌, inl, inr, Bool, false, none, some, List, [], ◌∷◌,
  ltb, leb, arith, All, Bool-cases, Error, Result, ok, err, ◌==◌, opt_eq_iff,
}
use sentry_pos_be.Text.{Text}
use sentry_pos_be.Lockout.{
  LockoutKind, User, Accounts, lockout_ms, max_attempts, retry_after, find_user, update_user,
  count_failure, find_owner_user, verify_pin_with_lockout, test_pin, record_failure, failure_error,
}

-- The attempts that reach the comparison of the PIN.
abbrev pub tested : Result (Unit {0}) → ℕ
tested (ok _) = 1
tested (err (Error.pin_invalid _)) = 1
tested (err _) = 0

module _ {H : Type 0} where
  -- The owner's user, as its owner and as its id find it (the id is the primary key).
  pub record IsFound (owner : ℕ) (users : List (User H)) (u : User H) : Type 0 where
    pub by_owner : find_owner_user owner users ≡ some u
    pub by_id : find_user u.id users ≡ some u

  found-matches :
      (owner : ℕ) (users : List (User H)) (u : User H)
      → find_owner_user owner users ≡ some u
      → (u.owner_id ≡ some owner) × (u.deleted ≡ false)
  unfolding find_owner_user
  found-matches owner [] u h = absurd (cc h)
  found-matches owner (v ∷ users) u h =
      ground (arith, opt_eq_iff v.owner_id (some owner), found-matches owner users u)

  -- An update that leaves the identity of a user alone.
  abbrev Keeps : (User H → User H) → Type 0
  Keeps f =
      (v : User H) → ((f v).id ≡ v.id) × ((f v).owner_id ≡ v.owner_id) × ((f v).deleted ≡ v.deleted)

  count_failure-Keeps : (now : ℕ) → Keeps (count_failure LockoutKind.pin now)
  unfolding count_failure
  count_failure-Keeps now v = (refl, refl, refl)

  find_user-update :
      (f : User H → User H) (users : List (User H)) (id : ℕ) (u : User H)
      → Keeps f
      → find_user id users ≡ some u
      → find_user id (update_user id f users) ≡ some (f u)
  unfolding find_user update_user
  find_user-update f [] id u keeps h = absurd (cc h)
  find_user-update f (v ∷ users) id u keeps h = elim (Bool-cases (v.id == id)) [
    | inl same ↦ rw same (ground (arith, keeps v))
    | inr other ↦ rw (other, other) (find_user-update f users id u keeps (rw other at h))
  ]

  find_owner_user-update :
      (f : User H → User H) (owner : ℕ) (users : List (User H)) (u : User H)
      → Keeps f
      → (u.owner_id ≡ some owner) × (u.deleted ≡ false)
      → find_user u.id users ≡ some u
      → find_owner_user owner users ≡ some u
      → find_owner_user owner (update_user u.id f users) ≡ some (f u)
  unfolding find_user update_user find_owner_user
  find_owner_user-update f owner [] u keeps m h k = absurd (cc h)
  find_owner_user-update f owner (v ∷ users) u keeps m h k = elim (Bool-cases (v.id == u.id)) [
    | inl same ↦ rw same (ground (arith, keeps v, opt_eq_iff (f v).owner_id (some owner)))
    | inr other ↦
        let rest = find_owner_user-update f owner users u keeps m (rw other at h) in
        rw other (ground (arith, rest))
  ]

  update-IsFound :
      (owner now : ℕ) (users : List (User H)) (u : User H)
      → IsFound owner users u
      → IsFound owner
          (update_user u.id (count_failure LockoutKind.pin now) users)
          (count_failure LockoutKind.pin now u)
  unfolding count_failure
  update-IsFound owner now users u found =
      let f = count_failure {H = H} LockoutKind.pin now in
      let keeps = count_failure-Keeps now in
      record {
        by_owner =
            find_owner_user-update f owner users u keeps
              (found-matches owner users u found.by_owner) found.by_id found.by_owner;
        by_id = find_user-update f users u.id u keeps found.by_id;
      }

  module _ (verify : H → Text → Bool) (owner : ℕ) where
    pub guesses : List (ℕ × Text) → Accounts H → ℕ
    guesses [] a = 0
    guesses ((now, text) ∷ rest) a =
        let (a', r) = verify_pin_with_lockout verify owner text now a in tested r + guesses rest a'

    -- A wrong PIN while the user is not locked.
    wrong_pin :
        (text : Text) (now : ℕ) (a : Accounts H) (u : User H) {hash : H}
        → IsFound owner a.users u
        → u.pin_hash ≡ some hash
        → verify hash text ≡ false
        → (u.pin_locked_until ≡ none) ⊎ ((l : ℕ) × (u.pin_locked_until ≡ some l) × (l ≤ now))
        → let (a', r) = verify_pin_with_lockout verify owner text now a in
          (tested r ≡ 1) × (a'.users ≡ update_user u.id (count_failure LockoutKind.pin now) a.users)
    unfolding verify_pin_with_lockout test_pin record_failure failure_error
    wrong_pin text now a u found has wrong free =
        let m = found-matches owner a.users u found.by_owner in
        ground (arith, found.by_owner, found.by_id)

    -- While the user is locked every PIN is refused untested, the right one too, and nothing changes.
    pub locked_pin :
        (text : Text) (now : ℕ) (a : Accounts H) (u : User H) {hash : H} {until : ℕ}
        → IsFound owner a.users u
        → u.pin_hash ≡ some hash
        → u.pin_locked_until ≡ some until
        → now < until
        → verify_pin_with_lockout verify owner text now a
          ≡ (a, err (Error.pin_locked (retry_after until now)))
    unfolding verify_pin_with_lockout
    locked_pin text now a u found has locked early = ground (arith, found.by_owner)

    -- The attempts come in order, from `from` until `last` at the latest.
    abbrev pub Within : ℕ → ℕ → List (ℕ × Text) → Type 0
    Within from last [] = Unit
    Within from last ((now, text) ∷ rest) = (from ≤ now) × (now ≤ last) × Within now last rest

    abbrev pub AllWrong : H → List (ℕ × Text) → Type 0
    AllWrong hash = All (λ e. verify hash e.1 ≡ false)

    one_more :
        (now : ℕ) (text : Text) (rest : List (ℕ × Text)) (a : Accounts H) (u : User H) {hash : H}
        → IsFound owner a.users u
        → u.pin_hash ≡ some hash
        → verify hash text ≡ false
        → (u.pin_locked_until ≡ none) ⊎ ((l : ℕ) × (u.pin_locked_until ≡ some l) × (l ≤ now))
        → (a' : Accounts H) × IsFound owner a'.users (count_failure LockoutKind.pin now u)
          × (guesses ((now, text) ∷ rest) a ≡ 1 + guesses rest a')
    unfolding guesses
    one_more now text rest a u found has wrong free =
        let a' = (verify_pin_with_lockout verify owner text now a).0 in
        let (one, users) = wrong_pin text now a u found has wrong free in
        (a', rw users (update-IsFound owner now a.users u found), rw one refl)

    locked_guesses :
        (attempts : List (ℕ × Text)) (from last : ℕ) (a : Accounts H) (u : User H) {hash : H}
        {until : ℕ}
        → IsFound owner a.users u
        → u.pin_hash ≡ some hash
        → AllWrong hash attempts
        → Within from last attempts
        → u.pin_locked_until ≡ some until
        → max_attempts ≤ u.failed_pin_count
        → (guesses attempts a ≡ 0) ⊎ (guesses attempts a * lockout_ms + until ≤ last + lockout_ms)
    unfolding guesses count_failure
    locked_guesses [] from last a u found has wrong within locked many = inl refl
    locked_guesses ((now, text) ∷ rest) from last a u {hash} {until} found has (w, ws)
          (_, le, within) locked many =
        elim (Bool-cases (ltb now until)) [
          | inl early ↦
              let same = locked_pin text now a u found has locked (ground arith) in
              let ih = locked_guesses rest now last a u found has ws within locked many in
              rw same (ground arith)
          | inr late ↦
              let (a', found', more) =
                one_more now text rest a u found has w (inr (until, locked, ground arith)) in
              let ih =
                locked_guesses rest now last a' (count_failure LockoutKind.pin now u) {hash = hash}
                  {until = now + lockout_ms} found' has ws within (ground arith) (omega arith) in
              inr (ground arith)
        ]

    open_guesses :
        (attempts : List (ℕ × Text)) (from last : ℕ) (a : Accounts H) (u : User H) {hash : H}
        → IsFound owner a.users u
        → u.pin_hash ≡ some hash
        → AllWrong hash attempts
        → Within from last attempts
        → from ≤ last
        → u.pin_locked_until ≡ none
        → u.failed_pin_count < max_attempts
        → guesses attempts a * lockout_ms + from
          ≤ (max_attempts - u.failed_pin_count) * lockout_ms + last
    unfolding guesses count_failure
    open_guesses [] from last a u found has wrong within le free few = omega arith
    open_guesses ((now, text) ∷ rest) from last a u {hash} found has (w, ws) (ge, le, within) _ free
          few =
        let (a', found', more) = one_more now text rest a u found has w (inl free) in
        elim (Bool-cases (leb max_attempts (u.failed_pin_count + 1))) [
          | inl fourth ↦
              let ih =
                locked_guesses rest now last a' (count_failure LockoutKind.pin now u) {hash = hash}
                  {until = now + lockout_ms} found' has ws within (ground arith) (ground arith) in
              ground arith
          | inr fewer ↦
              let ih =
                open_guesses rest now last a' (count_failure LockoutKind.pin now u) {hash = hash}
                  found' has ws within le (ground arith) (ground arith) in
              ground arith
        ]

    -- From a user with a PIN who is not locked and has fewer than four failures, any series of requests with wrong
    -- PINs between two times, with any pauses, has its PIN compared at most as often as four failures
    -- allow, and once more for every full five minutes between the two times; all the other requests are
    -- refused without a comparison.
    pub guesses_bounded :
        (attempts : List (ℕ × Text)) (from last : ℕ) (a : Accounts H) (u : User H) {hash : H}
        → IsFound owner a.users u
        → u.pin_hash ≡ some hash
        → AllWrong hash attempts
        → Within from last attempts
        → from ≤ last
        → u.pin_locked_until ≡ none
        → u.failed_pin_count < max_attempts
        → guesses attempts a ≤ (max_attempts - u.failed_pin_count) + (last - from) / lockout_ms
    guesses_bounded attempts from last a u found has wrong within le free few =
        let h = open_guesses attempts from last a u found has wrong within le free few in
        omega arith
