-- ===== src/Devices/Codes.antt =====
-- The numbers in the terminals' codes, and unpairing: src/pos/pairing/pairing.service.ts.
use sentry_pos_be.Common.{
  ℕ, ◌+◌, ◌≤◌, ◌≡◌, refl, Bool, true, false, not, ◌&&◌, ◌==◌, ==_iff, ==_refl, opt_eq, opt_eq_iff,
  none, some, List, [], ◌∷◌, any, All, arith, Bool-cases, Option-cases, inl, inr, Error, Result, ok,
  err,
}
use sentry_pos_be.Db.{Branch}
use sentry_pos_be.Devices.{
  Shop, Owner, Device, Registry, find_device, owner_of, update_device, forget, can_activate,
  count_of, owned_shop, find_branch, active_owner, create_device, pair, unpair,
}
use sentry_pos_be.Restock.{retry}

-- Newest first: each terminal's code is one more than the number of the branch's before it.
abbrev pub AreNumbered : List Device → Type 0
AreNumbered [] = Unit
AreNumbered (t ∷ ts) = (t.code ≡ count_of t.branch_id ts + 1) × AreNumbered ts

abbrev has_code : ℕ → ℕ → Device → Bool
has_code branch code u = u.branch_id == branch && u.code == code

code_bounded :
    (branch code : ℕ) (ts : List Device)
    → AreNumbered ts
    → any (has_code branch code) ts ≡ true
    → code ≤ count_of branch ts
code_bounded branch code [] h e = absurd (cc e)
code_bounded branch code (t ∷ ts) (h, hs) e =
    let ih = code_bounded branch code ts hs in
    elim (Bool-cases (t.branch_id == branch)) [
      | inl same ↦
          let b = (==_iff t.branch_id branch).0 same in
          let h' = rw b at h in
          rw same (elim (Bool-cases (t.code == code)) [
            | inl equal ↦ let c = (==_iff t.code code).0 equal in omega arith
            | inr other ↦ let rest = ih (ground arith) in omega arith
          ])
      | inr apart ↦ rw apart (ih (ground arith))
    ]

create_device_next :
    (branch id hash : ℕ) (reg : Registry)
    → AreNumbered reg.devices
    → (t : Device) × (create_device branch id hash reg
        ≡ ok (t, record reg { devices = t ∷ reg.devices }))
      × (t.branch_id ≡ branch)
      × (t.code ≡ count_of branch reg.devices + 1)
      × (t.token_hash ≡ some hash)
      × (any (has_code branch t.code) reg.devices ≡ false)
unfolding create_device
create_device_next branch id hash reg numbered =
    let code = count_of branch reg.devices + 1 in
    elim (Bool-cases (any (has_code branch code) reg.devices)) [
      | inl taken ↦
          let bound = code_bounded branch code reg.devices numbered taken in
          absurd (omega (arith, bound))
      | inr free ↦ (
        record {
          id = id;
          branch_id = branch;
          code = code;
          token_hash = some hash;
          last_seen_at = none;
          deleted = false;
        },
        rw free refl,
        refl,
        refl,
        refl,
        free,
      )
    ]

-- Where the terminals are numbered in order, pairing one that passes its checks succeeds on the first
-- run: the new terminal gets the next number of its branch, which no terminal of the branch ever had,
-- and the terminals stay numbered in order.
pub pair_lem :
    (sha : ℕ → ℕ) (owner business branch id token : ℕ) (reg : Registry) (seen : ℕ → Registry)
    (s : Shop) (b : Branch) (o : Owner)
    → AreNumbered (Registry.devices (seen 0))
    → owned_shop owner business reg ≡ ok s
    → find_branch s.id branch reg ≡ ok b
    → active_owner owner reg ≡ ok o
    → (t : Device) × (pair sha owner business branch id token reg seen
        ≡ ok (t, record (seen 0) { devices = t ∷ Registry.devices (seen 0) }))
      × (t.branch_id ≡ b.id)
      × (t.token_hash ≡ some (sha token))
      × (any (λ u. u.branch_id == b.id && u.code == t.code) (Registry.devices (seen 0)) ≡ false)
      × AreNumbered (t ∷ Registry.devices (seen 0))
unfolding pair retry
pair_lem sha owner business branch id token reg seen s b o numbered shop place active =
    let (t, made, at, code, hash, fresh) =
      create_device_next b.id id (sha token) (seen 0) numbered in
    (t, ground arith, at, hash, fresh, (rw at code, numbered))

-- No two terminals have the same id or, while they are paired, the same hash.
abbrev pub AreApart : List Device → Type 0
AreApart [] = Unit
AreApart (t ∷ ts) =
    All (λ u. (t.id == u.id) ≡ false) ts
    × All (λ u. (hash : ℕ) → t.token_hash ≡ some hash → opt_eq u.token_hash (some hash) ≡ false) ts
    × AreApart ts

others :
    (hash : ℕ) (t : Device) (ts : List Device)
    → t.token_hash ≡ some hash
    → All (λ u. (hash : ℕ) → t.token_hash ≡ some hash → opt_eq u.token_hash (some hash) ≡ false) ts
    → find_device hash ts ≡ none
unfolding find_device
others hash t [] e h = refl
others hash t (u ∷ ts) e (h, hs) =
    let rest = others hash t ts e hs in let apart = h hash e in ground arith

known :
    (hash : ℕ) (t v : Device) (ts : List Device)
    → All (λ u. (v.id == u.id) ≡ false) ts
    → find_device hash ts ≡ some t
    → (v.id == t.id) ≡ false
unfolding find_device
known hash t v [] h e = absurd (cc e)
known hash t v (u ∷ ts) (h, hs) e = ground (arith, known hash t v ts hs)

forgotten :
    (hash : ℕ) (t : Device) (ts : List Device)
    → AreApart ts
    → find_device hash ts ≡ some t
    → find_device hash (update_device t.id forget ts) ≡ none
unfolding find_device update_device
forgotten hash t [] h e = absurd (cc e)
forgotten hash t (u ∷ ts) (ids, hashes, rest) e =
    elim (Bool-cases (opt_eq u.token_hash (some hash) && not u.deleted)) [
      | inl here ↦
          let e' = rw here at e in
          let same : u ≡ t = cc in
          let paired : u.token_hash ≡ some hash =
            (opt_eq_iff u.token_hash (some hash)).0 (ground arith) in
          let none_else = others hash u ts paired hashes in rw (← same, ==_refl u.id) none_else
      | inr other ↦
          let e' = rw other at e in
          let apart = known hash t u ts ids e' in rw (apart, other) (forgotten hash t ts rest e')
    ]

-- Where ids and hashes are distinct, a token that was unpaired is let through no more.
pub unpair_lem :
    (sha : ℕ → ℕ) (token owner now : ℕ) (reg after : Registry)
    → AreApart reg.devices
    → unpair sha token owner reg ≡ ok after
    → can_activate sha now (some token) after ≡ err Error.unauthorized
unfolding unpair can_activate
unpair_lem sha token owner now reg after apart e =
    elim (Option-cases (find_device (sha token) reg.devices)) [
      | inl unknown ↦ absurd (ground arith)
      | inr (t, found) ↦ go t found (owner_of reg t.branch_id) refl
    ]
  where
    go :
        (t : Device)
        → find_device (sha token) reg.devices ≡ some t
        → (r : Result (Branch × Owner)) → owner_of reg t.branch_id ≡ r
        → can_activate sha now (some token) after ≡ err Error.unauthorized
    go t found (err x) f = absurd (ground arith)
    go t found (ok (b, o)) f = elim (Bool-cases (o.id == owner)) [
      | inr foreign ↦ absurd (ground arith)
      | inl own ↦
          let devices : after.devices ≡ update_device t.id forget reg.devices = ground arith in
          let gone = forgotten (sha token) t reg.devices apart found in
          let lost : find_device (sha token) after.devices ≡ none = rw devices gone in ground arith
    ]
