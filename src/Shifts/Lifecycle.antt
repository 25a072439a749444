-- ===== src/Shifts/Lifecycle.antt =====
-- Open and closed shifts of a terminal: src/pos/shifts/shifts.service.ts.
use sentry_pos_be.Common.{
  ℕ, ◌≡◌, refl, Bool, true, false, ◌==◌, ==_iff, ==_refl, Option, none, some, is_some, List, [],
  ◌∷◌, ℤ, ◌-ℤ◌, find, arith, Bool-cases, inl, inr, Option-cases, Error, ok, err,
}
use sentry_pos_be.Text.{Text, trim}
use sentry_pos_be.Db.{Shift, CashMovementType, CashMovement, Db, Ctx}
use sentry_pos_be.Sales.Complete.{find_open_shift, is_open_at}
use sentry_pos_be.Shifts.{
  ShiftTotals, ZReport, shift_totals, update_shift, new_shift, close_row, add_row, current,
  open_shift, add_cash_movement, totals_of_open, close_shift,
}

abbrev pub find_shift : ℕ → List Shift → Option Shift
find_shift id shifts = find (λ s. s.id == id) shifts

-- The ids are distinct, and no terminal has two open shifts in a branch.
abbrev pub ShiftsAreSound : List Shift → Type 0
ShiftsAreSound [] = Unit
ShiftsAreSound (s ∷ shifts) =
    (find_shift s.id shifts ≡ none)
    × (is_some s.closed_at ≡ false → find (is_open_at s.terminal_id s.branch_id) shifts ≡ none)
    × ShiftsAreSound shifts

-- A change of a shift that opens none.
abbrev Keeps : (Shift → Shift) → Type 0
Keeps f =
    (s : Shift)
    → ((f s).id ≡ s.id)
      × ((f s).terminal_id ≡ s.terminal_id)
      × ((f s).branch_id ≡ s.branch_id)
      × (is_some (f s).closed_at ≡ false → is_some s.closed_at ≡ false)

find_shift-update :
    (f : Shift → Shift) (keeps : Keeps f) (id x : ℕ) (shifts : List Shift)
    → find_shift x shifts ≡ none
    → find_shift x (update_shift id f shifts) ≡ none
unfolding update_shift
find_shift-update f keeps id x [] h = refl
find_shift-update f keeps id x (s ∷ shifts) h =
    ground (arith, keeps s, find_shift-update f keeps id x shifts)

find_open-update :
    (f : Shift → Shift) (keeps : Keeps f) (id terminal branch : ℕ) (shifts : List Shift)
    → find (is_open_at terminal branch) shifts ≡ none
    → find (is_open_at terminal branch) (update_shift id f shifts) ≡ none
unfolding update_shift
find_open-update f keeps id terminal branch [] h = refl
find_open-update f keeps id terminal branch (s ∷ shifts) h =
    ground (arith, keeps s, find_open-update f keeps id terminal branch shifts)

update_shift-AreSound :
    (f : Shift → Shift) (keeps : Keeps f) (id : ℕ) (shifts : List Shift)
    → ShiftsAreSound shifts
    → ShiftsAreSound (update_shift id f shifts)
unfolding update_shift
update_shift-AreSound f keeps id [] h = tt
update_shift-AreSound f keeps id (s ∷ shifts) (fresh, single, sound) =
    elim (Bool-cases (s.id == id)) [
      | inl same ↦
          let (i, t, b, o) = keeps s in rw (same, i, t, b) (fresh, λ h. single (o h), sound)
      | inr other ↦ rw other (
        find_shift-update f keeps id s.id shifts fresh,
        λ h. find_open-update f keeps id s.terminal_id s.branch_id shifts (single h),
        update_shift-AreSound f keeps id shifts sound,
      )
    ]

found-known :
    (p : Shift → Bool) (shifts : List Shift) (s : Shift)
    → find p shifts ≡ some s
    → is_some (find_shift s.id shifts) ≡ true
found-known p [] s h = absurd (cc h)
found-known p (t ∷ shifts) s h = ground (arith, ==_refl s.id, found-known p shifts s)

closed_none :
    (ctx : Ctx) (now : ℕ) (counted expected : ℤ) (shifts : List Shift) (s : Shift)
    → ShiftsAreSound shifts
    → find_open_shift ctx shifts ≡ some s
    → find_open_shift ctx (update_shift s.id (close_row now counted expected) shifts) ≡ none
unfolding find_open_shift update_shift
closed_none ctx now counted expected [] s sound h = refl
closed_none ctx now counted expected (t ∷ shifts) s (fresh, single, sound) h =
    elim (Bool-cases (is_open_at ctx.terminal_id ctx.branch_id t)) [
      | inl opened ↦
          let h' = rw opened at h in
          let e : t ≡ s = cc in rw (← e, ==_refl t.id) (ground (arith, single))
      | inr other ↦
          let h' = rw other at h in
          let known = found-known (is_open_at ctx.terminal_id ctx.branch_id) shifts s h' in
          elim (Bool-cases (t.id == s.id)) [
            | inl same ↦
                let clash = rw ((==_iff t.id s.id).0 same) at fresh in absurd (ground arith)
            | inr apart ↦ rw (apart, other) (closed_none ctx now counted expected shifts s sound h')
          ]
    ]

-- Opening a shift under a new id keeps the shifts sound.
pub open_shift-AreSound :
    {W : Type 0} (ctx : Ctx) (db : Db W) (id : ℕ) (opening : ℤ) (now : ℕ) {s : Shift} {after : Db W}
    → ShiftsAreSound db.shifts
    → find_shift id db.shifts ≡ none
    → open_shift ctx db id opening now ≡ ok (s, after)
    → ShiftsAreSound after.shifts
unfolding open_shift find_open_shift
open_shift-AreSound ctx db id opening now {s} {after} sound fresh e =
    elim (Option-cases (find_open_shift ctx db.shifts)) [
      | inr (x, found) ↦ absurd (ground arith)
      | inl free ↦
          let same : after.shifts ≡ new_shift ctx id opening now ∷ db.shifts = ground arith in
          rw same (fresh, λ _. free, sound)
    ]

pub add_cash_movement-AreSound :
    {W : Type 0} (ctx : Ctx) (db : Db W) (id : ℕ) (kind : CashMovementType) (amount : ℤ)
    (reason : Text) (now : ℕ) {m : CashMovement} {after : Db W}
    → ShiftsAreSound db.shifts
    → add_cash_movement ctx db id kind amount reason now ≡ ok (m, after)
    → ShiftsAreSound after.shifts
unfolding add_cash_movement
add_cash_movement-AreSound ctx db id kind amount reason now {m} {after} sound e =
    elim (Option-cases (find_open_shift ctx db.shifts)) [
      | inl none_open ↦ absurd (ground arith)
      | inr (s, found) ↦
          let m' : CashMovement = record {
            id = id;
            cash_type = kind;
            amount = amount;
            reason = trim reason;
            at = now;
          } in
          let same : after.shifts ≡ update_shift s.id (add_row m') db.shifts = ground arith in
          rw same (
            update_shift-AreSound (add_row m') (λ t. (refl, refl, refl, λ h. h)) s.id db.shifts
              sound)
    ]

pub close_shift-AreSound :
    {W : Type 0} (ctx : Ctx) (db : Db W) (counted : ℤ) (now : ℕ) (z : ZReport) (after : Db W)
    → ShiftsAreSound db.shifts
    → close_shift ctx db counted now ≡ ok (z, after)
    → ShiftsAreSound after.shifts
unfolding close_shift
close_shift-AreSound ctx db counted now z after sound e =
    elim (Option-cases (find_open_shift ctx db.shifts)) [
      | inl none_open ↦ absurd (ground arith)
      | inr (s, found) ↦
          let expected = ShiftTotals.expected_cash (shift_totals s db.sales) in
          let same : after.shifts ≡ update_shift s.id (close_row now counted expected) db.shifts =
            ground arith in
          rw same (
            update_shift-AreSound (close_row now counted expected)
              (λ t. (refl, refl, refl, λ h. absurd (cc h))) s.id db.shifts sound)
    ]

-- Where the shifts are sound, a close that goes through reports the totals that the running report showed
-- last and the counted cash less the expected; it leaves the terminal without an open shift, so the
-- running report and a second close are refused; and the shifts stay sound.
pub close_shift_lem :
    {W : Type 0} (ctx : Ctx) (db : Db W) (counted : ℤ) (now later : ℕ) (recounted : ℤ) (z : ZReport)
    (after : Db W)
    → ShiftsAreSound db.shifts
    → close_shift ctx db counted now ≡ ok (z, after)
    → (totals_of_open ctx db ≡ ok z.totals)
      × (z.over_short ≡ counted -ℤ ShiftTotals.expected_cash z.totals)
      × (current ctx after ≡ none)
      × (totals_of_open ctx after ≡ err Error.validation)
      × (close_shift ctx after recounted later ≡ err Error.validation)
      × ShiftsAreSound after.shifts
unfolding close_shift totals_of_open current
close_shift_lem ctx db counted now later recounted z after sound e =
    elim (Option-cases (find_open_shift ctx db.shifts)) [
      | inl none_open ↦ absurd (ground arith)
      | inr (s, found) ↦
          let expected = ShiftTotals.expected_cash (shift_totals s db.sales) in
          let same : after.shifts ≡ update_shift s.id (close_row now counted expected) db.shifts =
            ground arith in
          let closed : find_open_shift ctx after.shifts ≡ none =
            rw same (closed_none ctx now counted expected db.shifts s sound found) in
          (
            ground arith,
            ground arith,
            closed,
            ground arith,
            ground arith,
            close_shift-AreSound ctx db counted now z after sound e,
          )
    ]
