-- ===== src/Totals/Sums.antt =====
-- The sums of `computeTotals` in src/common/totals/totals.ts against one another.
use sentry_pos_be.Common.{
  ◌≡◌, refl, Bool, List, [], ◌∷◌, map, ℤ, pos, ◌+ℤ◌, ◌-ℤ◌, int_laws, parts, All,
}
use sentry_pos_be.Money.{Double}
use sentry_pos_be.Cart.{CartLine, Cart}
use sentry_pos_be.Totals.{
  Applied, applied_amount, LineTotals, Rates, discount_amount, sum_gross, sum_promo, sum_scpwd,
  when_promo, when_scpwd, unless_scpwd, sum_order_base, sum_exempt, line_totals, compute_totals,
}

-- The net amount of a line is what its applied discount leaves.
abbrev pub IsNet : LineTotals → Type 0
IsNet t = t.net ≡ t.gross -ℤ applied_amount t.applied t.promo_discount t.sc_pwd_discount

-- One line moves both sides of the balance by its gross amount.
add_line :
    (a : Applied) (gross net promo scpwd g p s o e : ℤ)
    → net ≡ gross -ℤ applied_amount a promo scpwd
    → g ≡ p +ℤ s +ℤ o +ℤ e
    → g +ℤ gross
      ≡ when_promo a promo p +ℤ when_scpwd a scpwd s +ℤ unless_scpwd a net o +ℤ when_scpwd a net e
unfolding applied_amount
add_line Applied.promo gross net promo scpwd g p s o e n h = omega (int_laws, parts n, parts h)
add_line Applied.scpwd gross net promo scpwd g p s o e n h = omega (int_laws, parts n, parts h)
add_line Applied.nothing gross net promo scpwd g p s o e n h = omega (int_laws, parts n, parts h)

sums_balance :
    (ls : List LineTotals) (g p s o e : ℤ)
    → All IsNet ls
    → g ≡ p +ℤ s +ℤ o +ℤ e
    → sum_gross g ls ≡ sum_promo p ls +ℤ sum_scpwd s ls +ℤ sum_order_base o ls +ℤ sum_exempt e ls
unfolding sum_gross sum_promo sum_scpwd sum_order_base sum_exempt
sums_balance [] g p s o e n h = h
sums_balance (t ∷ ls) g p s o e (n, ns) h =
    sums_balance ls _ _ _ _ _ ns
      (add_line t.applied t.gross t.net t.promo_discount t.sc_pwd_discount g p s o e n h)

module _ {ℓ} {W : Type ℓ} ⦃d : Double W⦄ where
  line_totals-IsNet :
      (holder : Bool) (tax : W) (line : CartLine) → IsNet (line_totals holder tax line)
  unfolding line_totals
  line_totals-IsNet holder tax line = refl

  pub lines-IsNet :
      (holder : Bool) (tax : W) (lines : List CartLine)
      → All IsNet (map (line_totals holder tax) lines)
  lines-IsNet holder tax [] = tt
  lines-IsNet holder tax (line ∷ lines) =
      (line_totals-IsNet holder tax line, lines-IsNet holder tax lines)

  -- The discounted subtotal is what the lines that take no SC/PWD discount cost net, less the order
  -- discount on their sum, plus what the SC/PWD lines cost net: the order discount takes nothing
  -- off an SC/PWD line, and no line is counted twice or left out.
  pub discounted_subtotal_by_lines :
      (cart : Cart) (s : Rates W)
      → let t = compute_totals cart s in
        let base = sum_order_base (pos 0) t.lines in
        t.discounted_subtotal
        ≡ base -ℤ discount_amount cart.order_discount base +ℤ sum_exempt (pos 0) t.lines
  unfolding compute_totals
  discounted_subtotal_by_lines cart s =
      let ls = map (line_totals cart.sc_pwd s.tax_rate) cart.lines in
      let balance =
        sums_balance ls (pos 0) (pos 0) (pos 0) (pos 0) (pos 0)
          (lines-IsNet cart.sc_pwd s.tax_rate cart.lines) (omega int_laws) in
      omega (int_laws, parts balance)
