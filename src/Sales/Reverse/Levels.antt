-- ===== src/Sales/Reverse/Levels.antt =====
-- Levels and ledger under `restoreStock` of src/pos/sales/sales.service.ts.
use sentry_pos_be.Common.{ℕ, ◌+◌, ◌≡◌, refl, ==_refl, List, [], ◌∷◌, neg_part, All, arith}
use sentry_pos_be.KeyMap.{Key, key_eq_iff}
use sentry_pos_be.Inventory.{Movement, Stock, level}
use sentry_pos_be.Inventory.Balance.{level-add, coming, going, IsBalanced}
use sentry_pos_be.Sales.Claims.{Claim}
use sentry_pos_be.Sales.Claims.Sum.{total}
use sentry_pos_be.Sales.Complete.{sale_movement, log_sale}
use sentry_pos_be.Sales.Reverse.{
  Reversal, is_sale_move, sale_moves, give_back, restore_moves, restore_stock,
}

restore_moves_levels :
    (kind : Reversal) (sale : ℕ) (ms : List Movement) (stock : Stock) (k : Key)
    → level k (Stock.levels (restore_moves kind sale ms stock))
      ≡ level k (Stock.levels stock) + going k ms
unfolding restore_moves going
restore_moves_levels kind sale [] stock k = omega arith
restore_moves_levels kind sale (m ∷ ms) stock k =
    let ih = restore_moves_levels kind sale ms (give_back kind sale m stock) k in
    let added = level-add m.key k (neg_part m.qty_delta) stock.levels in
    ground (arith, key_eq_iff m.key k)

restored-IsBalanced :
    (kind : Reversal) (sale : ℕ) (m : Movement) (stock : Stock)
    → IsBalanced stock
    → IsBalanced (give_back kind sale m stock)
unfolding coming going
restored-IsBalanced kind sale m stock balanced k =
    let added = level-add m.key k (neg_part m.qty_delta) stock.levels in
    let before = balanced k in ground (arith, key_eq_iff m.key k)

restore_moves-IsBalanced :
    (kind : Reversal) (sale : ℕ) (ms : List Movement) (stock : Stock)
    → IsBalanced stock
    → IsBalanced (restore_moves kind sale ms stock)
unfolding restore_moves
restore_moves-IsBalanced kind sale [] stock balanced k = balanced k
restore_moves-IsBalanced kind sale (m ∷ ms) stock balanced k =
    restore_moves-IsBalanced kind sale ms (give_back kind sale m stock)
      (restored-IsBalanced kind sale m stock balanced) k

-- A reversal gives back to each level what the sale took from it.
pub restore_stock_levels :
    (branch sale : ℕ) (kind : Reversal) (stock : Stock) (k : Key)
    → level k (Stock.levels (restore_stock branch sale kind stock))
      ≡ level k (Stock.levels stock) + going k (sale_moves branch sale stock.movements)
unfolding restore_stock
restore_stock_levels branch sale kind stock k =
    restore_moves_levels kind sale (sale_moves branch sale stock.movements) stock k

pub restore_stock-IsBalanced :
    (branch sale : ℕ) (kind : Reversal) (stock : Stock)
    → IsBalanced stock
    → IsBalanced (restore_stock branch sale kind stock)
unfolding restore_stock
restore_stock-IsBalanced branch sale kind stock balanced =
    restore_moves-IsBalanced kind sale (sale_moves branch sale stock.movements) stock balanced

-- The movements that a sale writes: they take what its lines want, and bring nothing.
pub log_sale-going :
    (sale : ℕ) (cs : List Claim) (ms : List Movement) (k : Key)
    → (going k (log_sale sale cs ms) ≡ going k ms + total k cs)
      × (coming k (log_sale sale cs ms) ≡ coming k ms)
unfolding log_sale going coming total
log_sale-going sale [] ms k = (omega arith, refl)
log_sale-going sale (c ∷ cs) ms k =
    let ih = log_sale-going sale cs (sale_movement sale c ∷ ms) k in (ground arith, ground arith)

pub log_sale_moves :
    (branch sale : ℕ) (cs : List Claim) (ms : List Movement) (k : Key)
    → All (λ c. Key.branch (Claim.key c) ≡ branch) cs
    → going k (sale_moves branch sale (log_sale sale cs ms))
      ≡ going k (sale_moves branch sale ms) + total k cs
unfolding log_sale going total sale_moves is_sale_move
log_sale_moves branch sale [] ms k h = omega arith
log_sale_moves branch sale (c ∷ cs) ms k (h, hs) =
    let ih = log_sale_moves branch sale cs (sale_movement sale c ∷ ms) k hs in
    ground (arith, ==_refl sale)
