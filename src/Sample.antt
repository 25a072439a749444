-- ===== src/Sample.antt =====
-- A small shop: its tables, a draft of two lines, and the tables after its sale. The rates and products
-- are made up; the numbers with fixed decimals stand for the doubles.
use sentry_pos_be.Common.{
  ◌≡◌, refl, ◌∙◌, true, false, none, some, [], ◌∷◌, pos, ok, ◌+ℤ◌, ◌-ℤ◌, ◌*ℤ◌,
}
use sentry_pos_be.Money.{pct, mul_qty_price, mul_rate, vat_included, without_vat}
use sentry_pos_be.Money.Fixed.{Fixed, fixed, fixed_double}
use sentry_pos_be.KeyMap.{Key, lookup, insert, key_eq}
use sentry_pos_be.Cart.{OrderType, Ref, CartLine, Cart, line_unit_with_mods}
use sentry_pos_be.Totals.{
  Applied, compute_totals, discount_amount, line_totals, sum_gross, sum_promo, sum_scpwd,
  sum_order_base, sum_exempt,
}
use sentry_pos_be.Inventory.{MovementType, take_from_level}
use sentry_pos_be.Db.{Shift, PaymentMethod, SaleDraft, Sale, Db, Ctx}
use sentry_pos_be.Sales.Draft.{
  Costs, validate_discounts, assert_payment, totals_eq, validate_lines, is_known,
}
use sentry_pos_be.Sales.Complete.Replay.{complete_sale-persist}
use sentry_pos_be.Sales.Claims.{claims_of, wanted, lock_stock, detect_conflicts, decrement_all}
use sentry_pos_be.Text.{Text, trim}
use sentry_pos_be.Sales.Reverse.{Reversal, mark_voided, reverse_sale, void_sale}
use sentry_pos_be.Sales.Reverse.Status.{IsReversible, InOwnShift, void_sale_iff}
use sentry_pos_be.Shifts.{new_shift}
use sentry_pos_be.Sales.Complete.{
  find_sale, find_any_sale, find_open_shift, receipt_taken, payment_taken, check_draft, build_sale,
  insert_sale, persist, finish, complete_sale,
}

abbrev pub ctx : Ctx
ctx = record { owner_id = 7; business_id = 1; branch_id = 2; terminal_id = 3 }

abbrev pub bread : CartLine
bread = record {
  id = 1;
  product_id = some 10;
  variant_id = none;
  qty = 2000;
  unit_price = pos 5000;
  modifiers = [];
  discount = none;
  sc_pwd_marked = false;
  track_stock = true;
}

abbrev pub cart : Cart
cart = record {
  order_type = OrderType.takeout;
  lines = bread ∷ record bread { id = 2; qty = 500 } ∷ [];
  order_discount = none;
  sc_pwd = false;
}

abbrev pub db : Db Fixed
db = record {
  businesses =
      record {
        id = 1;
        owner_id = 7;
        deleted = false;
        rates = record { tax_rate = fixed (pos 120_000_000); service_charge_rate = fixed (pos 0) };
      }
      ∷ [];
  products =
      record {
        id = 10;
        business_id = 1;
        cost = some (pos 3000);
        variants = [];
        track_expiry = false;
        deleted = false;
      }
      ∷ [];
  branches = record { id = 2; business_id = 1; deleted = false } ∷ [];
  batches = [];
  discounts = [];
  terminals = record { id = 3; branch_id = 2; receipt_seq = 1 } ∷ [];
  shifts =
      record {
        id = 4;
        branch_id = 2;
        terminal_id = 3;
        opened_at = 0;
        closed_at = none;
        opening_cash = pos 100_000;
        closing_cash = none;
        expected_cash = none;
        cash_movements = [];
      }
      ∷ [];
  sales = [];
  stock = record {
    levels = (record { branch = 2; product = 10; variant = none }, 3000) ∷ [];
    movements =
        record {
          key = record { branch = 2; product = 10; variant = none };
          movement_type = MovementType.receive;
          ref_id = 1;
          qty_delta = pos 3000;
          unit_cost = none;
          reason_category = none;
        }
        ∷ [];
  };
}

abbrev pub draft : SaleDraft
draft = record {
  id = 100;
  receipt_no = b'T' ∷ b'1' ∷ b'-' ∷ b'7' ∷ [];
  shift_id = 4;
  cart = cart;
  totals = record {
    lines =
        record {
          line_id = 1;
          gross = pos 10000;
          promo_discount = pos 0;
          sc_pwd_discount = pos 0;
          applied = Applied.nothing;
          net = pos 10000;
        }
        ∷ record {
          line_id = 2;
          gross = pos 2500;
          promo_discount = pos 0;
          sc_pwd_discount = pos 0;
          applied = Applied.nothing;
          net = pos 2500;
        }
        ∷ [];
    subtotal = pos 12500;
    promo_discount = pos 0;
    sc_pwd_discount = pos 0;
    discounted_subtotal = pos 12500;
    service_charge = pos 0;
    total = pos 12500;
    vat_exempt_sales = pos 0;
    vat = pos 1339;
    vatable_sales = pos 11161;
  };
  payment = record {
    id = 90;
    method = PaymentMethod.cash;
    amount = pos 12500;
    tendered = pos 13000;
    change = pos 500;
  };
  created_at_device = 0;
}

abbrev pub costs : Costs
costs = (2, some (pos 3000)) ∷ (1, some (pos 3000)) ∷ []

pub draft_checked : check_draft ctx db draft ≡ ok (draft.totals, costs)
unfolding check_draft find_open_shift validate_discounts assert_payment totals_eq compute_totals
    line_totals discount_amount line_unit_with_mods mul_qty_price pct mul_rate vat_included
    without_vat sum_gross sum_promo sum_scpwd sum_order_base sum_exempt validate_lines is_known ◌+ℤ◌
    ◌-ℤ◌ ◌*ℤ◌
draft_checked = refl

abbrev pub bread_key : Key
bread_key = record { branch = 2; product = 10; variant = none }

abbrev pub sold : Sale
sold = build_sale ctx draft draft.totals costs 5

abbrev pub after : Db Fixed
after =
    insert_sale ctx (record db { stock = record (Db.stock db) { levels = (bread_key, 500) ∷ [] } })
      sold (claims_of 2 cart.lines)

pub draft_persisted :
    finish ctx db draft (persist ctx db draft draft.totals costs 5) ≡ ok (false, sold, after)
unfolding persist finish find_any_sale claims_of lock_stock detect_conflicts wanted decrement_all
    take_from_level lookup insert key_eq receipt_taken payment_taken
draft_persisted = refl

pub draft_completed : complete_sale ctx db db draft 5 ≡ ok (false, sold, after)
unfolding find_sale
draft_completed = complete_sale-persist ctx db db draft 5 refl draft_checked ∙ draft_persisted

-- The sale's void.
abbrev pub reason : Text
reason = b'x' ∷ []

abbrev pub void_mark : Sale → Sale
void_mark = mark_voided 6 (trim reason)

abbrev pub undone : Db Fixed
undone = reverse_sale ctx after 100 Reversal.void void_mark

abbrev pub shift : Shift
shift = new_shift ctx 4 (pos 100_000) 0

pub sold-IsReversible : IsReversible ctx after 100 reason sold
unfolding trim find_sale build_sale insert_sale
sold-IsReversible = (refl, refl, refl)

pub sold-InOwnShift : InOwnShift ctx after sold
unfolding find_open_shift build_sale insert_sale
sold-InOwnShift = (shift, refl, refl)

pub sale_voided : void_sale ctx after (Ref.uuid 100) reason 6 ≡ ok (void_mark sold, undone)
sale_voided =
    (void_sale_iff ctx after 100 reason 6 (void_mark sold) undone).1
      (sold, sold-IsReversible, sold-InOwnShift, refl, refl)
