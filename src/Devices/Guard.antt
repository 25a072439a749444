-- ===== src/Devices/Guard.antt =====
-- The decision of src/pos/guards/terminal.guard.ts.
use sentry_pos_be.Common.{
  ℕ, ◌-◌, ◌<◌, ◌≡◌, refl, ◌↔◌, ◌⊎◌, inl, inr, Bool, true, Option, none, some, arith, Option-cases,
  Result, ok, err,
}
use sentry_pos_be.Db.{Branch, Ctx}
use sentry_pos_be.Devices.{
  OwnerStatus, Owner, Device, Registry, suspend_grace_ms, find_device, owner_of, has_open_shift,
  status_gate, ctx_of, touch, can_activate,
}

-- Active; or suspended less than a day ago, with a shift still open.
abbrev pub IsAdmitted : ℕ → Owner → Bool → Type 0
IsAdmitted now owner shift_open =
    (owner.status ≡ OwnerStatus.active)
    ⊎ ((owner.status ≡ OwnerStatus.suspended)
        × (shift_open ≡ true)
        × ((at : ℕ) × (owner.suspended_at ≡ some at) × (now - at < suspend_grace_ms)))

gate-IsAdmitted :
    (now : ℕ) (owner : Owner) (shift_open : Bool)
    → status_gate now owner shift_open ≡ ok tt
    → IsAdmitted now owner shift_open
unfolding status_gate
gate-IsAdmitted now owner shift_open h = go owner.status owner.suspended_at refl refl
  where
    go :
        (s : OwnerStatus) (since : Option ℕ)
        → owner.status ≡ s
        → owner.suspended_at ≡ since
        → IsAdmitted now owner shift_open
    go OwnerStatus.active since e f = inl e
    go OwnerStatus.hard_suspended since e f = absurd (ground arith)
    go OwnerStatus.closed since e f = absurd (ground arith)
    go OwnerStatus.suspended none e f = absurd (ground arith)
    go OwnerStatus.suspended (some at) e f = inr (e, ground arith, (at, f, ground arith))

IsAdmitted-gate :
    (now : ℕ) (owner : Owner) (shift_open : Bool)
    → IsAdmitted now owner shift_open
    → status_gate now owner shift_open ≡ ok tt
unfolding status_gate
IsAdmitted-gate now owner shift_open (inl e) = ground arith
IsAdmitted-gate now owner shift_open (inr (e, shift, (at, f, recent))) = ground arith

module _ (sha : ℕ → ℕ) (now token : ℕ) (reg : Registry) where
  -- The paired terminal of the token, its branch and the owner, whose status admits it.
  abbrev pub Admits : Ctx → Type 0
  Admits c =
      (t : Device) × (b : Branch) × (o : Owner) × (find_device (sha token) reg.devices ≡ some t)
      × (owner_of reg t.branch_id ≡ ok (b, o))
      × IsAdmitted now o (has_open_shift t.id reg.shifts)
      × (c ≡ ctx_of t b o)

  admitted :
      (c : Ctx) (after : Registry)
      → can_activate sha now (some token) reg ≡ ok (c, after)
      → Admits c
  unfolding can_activate
  admitted c after e = elim (Option-cases (find_device (sha token) reg.devices)) [
    | inl unknown ↦ absurd (ground arith)
    | inr (t, found) ↦ owned t found (owner_of reg t.branch_id) refl
  ]
    where
      gated :
          (t : Device) (b : Branch) (o : Owner)
          → find_device (sha token) reg.devices ≡ some t
          → owner_of reg t.branch_id ≡ ok (b, o)
          → (r : Result (Unit {0})) → status_gate now o (has_open_shift t.id reg.shifts) ≡ r
          → Admits c
      gated t b o found f (err x) g = absurd (ground arith)
      gated t b o found f (ok u) g = (
        t,
        b,
        o,
        found,
        f,
        gate-IsAdmitted now o (has_open_shift t.id reg.shifts) g,
        ground arith,
      )

      owned :
          (t : Device)
          → find_device (sha token) reg.devices ≡ some t
          → (r : Result (Branch × Owner)) → owner_of reg t.branch_id ≡ r
          → Admits c
      owned t found (err x) f = absurd (ground arith)
      owned t found (ok (b, o)) f =
          gated t b o found f (status_gate now o (has_open_shift t.id reg.shifts)) refl

  -- A request passes exactly if its token is that of a paired terminal whose owner is active, or was
  -- suspended less than a day ago and has a shift open on the terminal; and it is then given the
  -- terminal, its branch, its business and its owner.
  pub can_activate_iff :
      (c : Ctx)
      → ((after : Registry) × (can_activate sha now (some token) reg ≡ ok (c, after))) ↔ Admits c
  unfolding can_activate
  can_activate_iff c = (
    λ h. admitted c h.0 h.1,
    λ h.
        let (t, b, o, found, f, ok_status, same) = h in
        let gate = IsAdmitted-gate now o (has_open_shift t.id reg.shifts) ok_status in
        (touch now t reg, ground arith),
  )
