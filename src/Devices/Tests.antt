-- ===== src/Devices/Tests.antt =====
-- A terminal is paired, sends a request, and is unpaired. The hash of a token is the token's square.
use sentry_pos_be.Common.{
  ℕ, ◌*◌, ◌≡◌, refl, ◌↔◌, true, false, ◌&&◌, ◌==◌, none, some, [], ◌∷◌, any, Error, ok, err,
}
use sentry_pos_be.Db.{Branch, Ctx}
use sentry_pos_be.Devices.{
  OwnerStatus, Owner, Shop, Device, Registry, find_device, owner_of, update_device, can_activate,
  owned_shop, find_branch, active_owner, pair, unpair,
}
use sentry_pos_be.Devices.Guard.{Admits, can_activate_iff}
use sentry_pos_be.Devices.Codes.{AreNumbered, AreApart, pair_lem, unpair_lem}

abbrev sha : ℕ → ℕ
sha token = token * token

abbrev cafe : Shop
cafe = record { id = 1; owner_id = 7; deleted = false }

abbrev main_street : Branch
main_street = record { id = 2; business_id = 1; deleted = false }

abbrev owner : Owner
owner = record { id = 7; status = OwnerStatus.active; suspended_at = none }

-- A first terminal is there, unpaired and removed, and a second one is paired.
abbrev registry : Registry
registry = record {
  owners = owner ∷ [];
  shops = cafe ∷ [];
  branches = main_street ∷ [];
  devices =
      record {
        id = 4;
        branch_id = 2;
        code = 2;
        token_hash = some 25;
        last_seen_at = none;
        deleted = false;
      }
      ∷ record {
        id = 3;
        branch_id = 2;
        code = 1;
        token_hash = none;
        last_seen_at = some 9;
        deleted = true;
      }
      ∷ [];
  shifts = [];
}

pair_lem_example :
    (t : Device) × (pair sha 7 1 2 5 6 registry (λ _. registry)
      ≡ ok (t, record registry { devices = t ∷ registry.devices }))
    × (t.branch_id ≡ 2)
    × (t.token_hash ≡ some (sha 6))
    × (any (λ u. u.branch_id == 2 && u.code == t.code) registry.devices ≡ false)
    × AreNumbered (t ∷ registry.devices)
unfolding owned_shop find_branch active_owner
pair_lem_example =
    pair_lem sha 7 1 2 5 6 registry (λ _. registry) cafe main_street owner (refl, (refl, tt)) refl
      refl refl

abbrev ctx : Ctx
ctx = record { owner_id = 7; business_id = 1; branch_id = 2; terminal_id = 4 }

can_activate_iff_example :
    ((after : Registry) × (can_activate sha 10 (some 5) registry ≡ ok (ctx, after)))
    ↔ Admits sha 10 5 registry ctx
can_activate_iff_example = can_activate_iff sha 10 5 registry ctx

registry-AreApart : AreApart registry.devices
registry-AreApart = ((refl, tt), (λ _ _. refl, tt), (tt, tt, tt))

abbrev unpaired : Registry
unpaired = record registry {
  devices =
      record {
        id = 4;
        branch_id = 2;
        code = 2;
        token_hash = none;
        last_seen_at = none;
        deleted = false;
      }
      ∷ record {
        id = 3;
        branch_id = 2;
        code = 1;
        token_hash = none;
        last_seen_at = some 9;
        deleted = true;
      }
      ∷ [];
}

unpair_done : unpair sha 5 7 registry ≡ ok unpaired
unfolding unpair find_device owner_of update_device
unpair_done = refl

unpair_lem_example : can_activate sha 11 (some 5) unpaired ≡ err Error.unauthorized
unpair_lem_example = unpair_lem sha 5 7 11 registry unpaired registry-AreApart unpair_done
