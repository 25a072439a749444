-- ===== src/Auth/Kept.antt =====
-- src/auth: what every operation keeps of the rows of refresh_tokens and auth_tokens.
use sentry_pos_be.Common.{
  ℕ, ◌≡◌, refl, ◌∙◌, sym, Bool, true, false, not, some, List, [], ◌∷◌, ◌++◌, ◌==◌, ◌&&◌, ◌||◌,
  is_some, any, arith, Bool-cases, inl, inr,
}
use mathlib.Core.Path.{subst}
use sentry_pos_be.Auth.{RefreshToken, AuthToken, AuthDb}
use sentry_pos_be.Auth.Sessions.{revoke_where, find_token}
use sentry_pos_be.Auth.Invites.{is_unused, mark_used}

-- The row of the hash is there, of the user, and revoked.
abbrev pub IsRevoked : ℕ → ℕ → List RefreshToken → Type 0
IsRevoked user h rows =
    (r : RefreshToken) × (find_token h rows ≡ some r)
    × (r.user_id ≡ user)
    × (is_some r.revoked_at ≡ true)

-- The row of the id is there, and none of that id is unused.
abbrev pub IsSpent : ℕ → List AuthToken → Type 0
IsSpent id rows =
    (any (λ (r : AuthToken). r.id == id) rows ≡ true) × (any (is_unused id) rows ≡ false)

pub revoke_where-IsRevoked :
    (p : RefreshToken → Bool) (now user h : ℕ) (rows : List RefreshToken)
    → IsRevoked user h rows
    → IsRevoked user h (revoke_where p now rows)
unfolding find_token revoke_where
revoke_where-IsRevoked p now user h [] (r, e, of, done) = absurd (cc e)
revoke_where-IsRevoked p now user h (x ∷ rows) (r, e, of, done) =
    elim (Bool-cases (x.token_hash == h)) [
      | inl same ↦ elim (Bool-cases (p x && not (is_some x.revoked_at))) [
        | inl live ↦ (record x { revoked_at = some now }, ground arith, ground arith, refl)
        | inr kept ↦ (r, ground arith, of, done)
      ]
      | inr other ↦
          let (q, found, whose, dead) =
            revoke_where-IsRevoked p now user h rows (r, ground arith, of, done) in
          (q, ground arith, whose, dead)
    ]

pub append-IsRevoked :
    (user h : ℕ) (rows more : List RefreshToken)
    → IsRevoked user h rows
    → IsRevoked user h (rows ++ more)
unfolding find_token
append-IsRevoked user h [] more (r, e, of, done) = absurd (cc e)
append-IsRevoked user h (x ∷ rows) more (r, e, of, done) = elim (Bool-cases (x.token_hash == h)) [
  | inl same ↦ (r, ground arith, of, done)
  | inr other ↦
      let (q, found, whose, dead) = append-IsRevoked user h rows more (r, ground arith, of, done) in
      (q, ground arith, whose, dead)
]

-- A row that the test picks is revoked afterwards.
pub revoke_where_found :
    (p : RefreshToken → Bool) (now h : ℕ) (rows : List RefreshToken) (r : RefreshToken)
    → find_token h rows ≡ some r
    → p r ≡ true
    → IsRevoked r.user_id h (revoke_where p now rows)
unfolding find_token revoke_where
revoke_where_found p now h [] r e picked = absurd (cc e)
revoke_where_found p now h (x ∷ rows) r e picked = elim (Bool-cases (x.token_hash == h)) [
  | inl same ↦
      let here : x ≡ r = ground arith in
      let of_x : p x ≡ true = subst (λ y. p y ≡ true) (sym here) picked in
      subst (λ y. IsRevoked (RefreshToken.user_id y) h (revoke_where p now (x ∷ rows))) here
        (elim (Bool-cases (is_some x.revoked_at)) [
          | inl dead ↦ (x, ground arith, refl, dead)
          | inr live ↦ (record x { revoked_at = some now }, ground arith, refl, refl)
        ])
  | inr other ↦
      let (q, found, whose, dead) = revoke_where_found p now h rows r (ground arith) picked in
      (q, ground arith, whose, dead)
]

-- The rows of a user that serve.
abbrev pub is_live_of : ℕ → RefreshToken → Bool
is_live_of user r = r.user_id == user && not (is_some r.revoked_at)

pub revoke_where_ends :
    (now user : ℕ) (rows : List RefreshToken)
    → any (is_live_of user) (revoke_where (λ r. r.user_id == user) now rows) ≡ false
unfolding revoke_where
revoke_where_ends now user [] = refl
revoke_where_ends now user (x ∷ rows) = elim (Bool-cases (is_live_of user x)) [
  | inl live ↦ ground (arith, revoke_where_ends now user rows)
  | inr kept ↦ ground (arith, revoke_where_ends now user rows)
]

pub mark_used_spends :
    (id now : ℕ) (rows : List AuthToken) → any (is_unused id) (mark_used id now rows) ≡ false
unfolding mark_used
mark_used_spends id now [] = refl
mark_used_spends id now (x ∷ rows) = elim (Bool-cases (is_unused id x)) [
  | inl live ↦ ground (arith, mark_used_spends id now rows)
  | inr kept ↦ ground (arith, mark_used_spends id now rows)
]

pub mark_used_keeps_ids :
    (id k now : ℕ) (rows : List AuthToken)
    → any (λ (r : AuthToken). r.id == id) (mark_used k now rows)
      ≡ any (λ (r : AuthToken). r.id == id) rows
unfolding mark_used
mark_used_keeps_ids id k now [] = refl
mark_used_keeps_ids id k now (x ∷ rows) = elim (Bool-cases (is_unused k x)) [
  | inl live ↦ ground (arith, mark_used_keeps_ids id k now rows)
  | inr kept ↦ ground (arith, mark_used_keeps_ids id k now rows)
]

pub mark_used_keeps_spent :
    (id k now : ℕ) (rows : List AuthToken)
    → any (is_unused id) rows ≡ false
    → any (is_unused id) (mark_used k now rows) ≡ false
unfolding mark_used
mark_used_keeps_spent id k now [] e = refl
mark_used_keeps_spent id k now (x ∷ rows) e = elim (Bool-cases (is_unused k x)) [
  | inl live ↦ ground (arith, mark_used_keeps_spent id k now rows)
  | inr kept ↦ ground (arith, mark_used_keeps_spent id k now rows)
]

-- An unused row of a spent id is no row of the table.
pub spent_refuses :
    (id fresh hash : ℕ) (rows : List AuthToken)
    → any (λ (r : AuthToken). r.id == id) rows ≡ true
    → any (λ (r : AuthToken). r.id == fresh || r.token_hash == hash) rows ≡ false
    → (fresh == id) ≡ false
spent_refuses id fresh hash [] e new = absurd (ground arith)
spent_refuses id fresh hash (x ∷ rows) e new = ground (arith, spent_refuses id fresh hash rows)

-- Revoked refresh tokens and spent tokens of one state are so in the other.
pub record Kept {H S : Type 0} (db after : AuthDb H S) : Type 0 where
  pub revoked :
      (user h : ℕ) → IsRevoked user h db.refresh_tokens → IsRevoked user h after.refresh_tokens
  pub spent : (id : ℕ) → IsSpent id db.auth_tokens → IsSpent id after.auth_tokens

module _ {H S : Type 0} where
  pub same-Kept :
      (db after : AuthDb H S)
      → after.refresh_tokens ≡ db.refresh_tokens
      → after.auth_tokens ≡ db.auth_tokens
      → Kept db after
  same-Kept db after e f = record { revoked = λ user h old. rw e old; spent = λ id old. rw f old }

  pub Kept-trans : (db mid after : AuthDb H S) → Kept db mid → Kept mid after → Kept db after
  Kept-trans db mid after first second = record {
    revoked = λ user h old. Kept.revoked second user h (Kept.revoked first user h old);
    spent = λ id old. Kept.spent second id (Kept.spent first id old);
  }

  pub revoke_where-Kept :
      (p : RefreshToken → Bool) (now : ℕ) (db : AuthDb H S)
      → Kept db (record db { refresh_tokens = revoke_where p now db.refresh_tokens })
  revoke_where-Kept p now db = record {
    revoked = λ user h old. revoke_where-IsRevoked p now user h db.refresh_tokens old;
    spent = λ id old. old;
  }

  pub append-Kept :
      (more : List RefreshToken) (db : AuthDb H S)
      → Kept db (record db { refresh_tokens = db.refresh_tokens ++ more })
  append-Kept more db = record {
    revoked = λ user h old. append-IsRevoked user h db.refresh_tokens more old;
    spent = λ id old. old;
  }

  pub mark_used-Kept :
      (k now : ℕ) (db : AuthDb H S)
      → Kept db (record db { auth_tokens = mark_used k now db.auth_tokens })
  mark_used-Kept k now db = record {
    revoked = λ user h old. old;
    spent = λ id old. (
      mark_used_keeps_ids id k now db.auth_tokens ∙ old.0,
      mark_used_keeps_spent id k now db.auth_tokens old.1,
    );
  }

  -- A row of a new id and hash.
  pub cons-Kept :
      (row : AuthToken) (db : AuthDb H S)
      → any (λ (r : AuthToken). r.id == row.id || r.token_hash == row.token_hash) db.auth_tokens
        ≡ false
      → Kept db (record db { auth_tokens = row ∷ db.auth_tokens })
  cons-Kept row db new = record {
    revoked = λ user h old. old;
    spent = λ id old.
        let other = spent_refuses id row.id row.token_hash db.auth_tokens old.0 new in
        (rw other old.0, rw other old.1);
  }
