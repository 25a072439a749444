-- ===== src/Sales/Claims/Decrement.antt =====
-- The decrements of `persist` in src/pos/sales/sales.service.ts.
use sentry_pos_be.Common.{
  ℕ, ◌+◌, ◌-◌, ◌≤◌, ◌<◌, ◌≡◌, ◌∙◌, refl, List, [], ◌∷◌, if◌then◌else◌, All, arith, ok,
}
use sentry_pos_be.KeyMap.{Key, KeyMap, key_eq, key_eq_iff, key_eq_refl, lookup, insert}
use sentry_pos_be.Inventory.{level, take_from_level}
use sentry_pos_be.Inventory.Balance.{level-insert, take_from_level_total}
use sentry_pos_be.Sales.Claims.{Claim, wanted, decrement_all}
use sentry_pos_be.Sales.Claims.Sum.{total}

-- What the entries of a map ask of a level.
unfoldable pub asked : Key → KeyMap ℕ → ℕ
asked k [] = 0
asked k ((j, q) ∷ m) = (if key_eq j k then q else 0) + asked k m

asked-insert :
    (j k : Key) (q : ℕ) (m : KeyMap ℕ)
    → asked k (insert j (level j m + q) m) ≡ asked k m + (if key_eq j k then q else 0)
unfolding asked insert lookup
asked-insert j k q [] = ground arith
asked-insert j k q ((i, v) ∷ m) =
    ground (arith, asked-insert j k q m, key_eq_iff i j, key_eq_iff i k, key_eq_iff j k)

pub asked-wanted :
    (k : Key) (m : KeyMap ℕ) (cs : List Claim) → asked k (wanted m cs) ≡ asked k m + total k cs
unfolding wanted total
asked-wanted k m [] = omega arith
asked-wanted k m (c ∷ cs) = omega (
  arith,
  asked-wanted k (insert c.key (level c.key m + c.milli) m) cs,
  asked-insert c.key k c.milli m,
)

abbrev pub AllPositive : KeyMap ℕ → Type 0
AllPositive m = All (λ e. 0 < e.1) m

insert-AllPositive :
    (k : Key) (q : ℕ) (m : KeyMap ℕ) → 0 < q → AllPositive m → AllPositive (insert k q m)
unfolding insert
insert-AllPositive k q [] h p = (h, tt)
insert-AllPositive k q ((j, v) ∷ m) h p = ground (arith, insert-AllPositive k q m h p.1)

pub wanted-AllPositive :
    (m : KeyMap ℕ) (cs : List Claim)
    → AllPositive m
    → All (λ c. 0 < c.milli) cs
    → AllPositive (wanted m cs)
unfolding wanted
wanted-AllPositive m [] p h = p
wanted-AllPositive m (c ∷ cs) p (h, hs) =
    wanted-AllPositive (insert c.key (level c.key m + c.milli) m) cs
      (insert-AllPositive c.key (level c.key m + c.milli) m (omega arith) p) hs

abbrev Covered : KeyMap ℕ → KeyMap ℕ → Type 0
Covered wants levels = (k : Key) → asked k wants ≤ level k levels

Covered-tail :
    (j : Key) (q : ℕ) (wants levels : KeyMap ℕ)
    → Covered ((j, q) ∷ wants) levels
    → Covered wants levels
unfolding asked
Covered-tail j q wants levels h k = omega (arith, h k)

Covered-head :
    (j : Key) (q : ℕ) (wants levels : KeyMap ℕ)
    → Covered ((j, q) ∷ wants) levels
    → q ≤ level j levels
unfolding asked
Covered-head j q wants levels h = ground (arith, h j, key_eq_refl j)

Covered-step :
    (j : Key) (q : ℕ) (wants levels : KeyMap ℕ)
    → Covered ((j, q) ∷ wants) levels
    → Covered wants (insert j (level j levels - q) levels)
unfolding asked
Covered-step j q wants levels h k =
    ground (arith, h k, level-insert j k (level j levels - q) levels, key_eq_iff j k)

decrement_all_cons :
    (locked wants levels next : KeyMap ℕ) (j : Key) (q : ℕ)
    → 0 < level j locked
    → take_from_level j q levels ≡ ok next
    → decrement_all locked ((j, q) ∷ wants) levels ≡ decrement_all locked wants next
unfolding decrement_all
decrement_all_cons locked wants levels next j q there taken = ground arith

-- Where the rows that were locked and the rows that are written both cover what is asked, every
-- decrement goes through and each level loses what is asked of it.
pub decrement_all_total :
    (locked wants levels : KeyMap ℕ)
    → AllPositive wants
    → ((k : Key) → asked k wants ≤ level k locked)
    → ((k : Key) → asked k wants ≤ level k levels)
    → (after : KeyMap ℕ) × (decrement_all locked wants levels ≡ ok after)
      × ((k : Key) → level k after + asked k wants ≡ level k levels)
unfolding decrement_all asked
decrement_all_total locked [] levels p hl h = (levels, refl, λ k. omega arith)
decrement_all_total locked ((j, q) ∷ wants) levels (p, ps) hl h =
    let next = insert j (level j levels - q) levels in
    let (after, done, sums) =
      decrement_all_total locked wants next ps (Covered-tail j q wants locked hl)
        (Covered-step j q wants levels h) in
    let taken = take_from_level_total j q levels p (Covered-head j q wants levels h) in
    let there = Covered-head j q wants locked hl in
    (
      after,
      decrement_all_cons locked wants levels next j q (omega arith) taken ∙ done,
      λ k. ground (
        arith,
        sums k,
        level-insert j k (level j levels - q) levels,
        key_eq_iff j k,
        Covered-head j q wants levels h,
      ),
    )
