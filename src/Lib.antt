-- ===== src/Lib.antt =====
-- Selling at the terminals of a small shop, over the tables that the terminals and the owner's portal
-- share: what a sale costs, what it takes from the shelves and puts in the drawer, and how it is taken
-- back. Paths are those of the repository.
--
-- The parts and their files:
--
-- Money (Money.antt, with Laws, Bounds and Fixed) is src/common/totals/money.ts and the products of
-- src/common/totals/qty.ts. Amounts are whole centavos, quantities whole thousandths. What the code
-- computes on doubles that are whole numbers and on quotients by 100 and 1000 is exact rounding here;
-- the rates are doubles, behind the interface `Double`, whose laws (`IsIeee`) are those of IEEE 754 that
-- the code relies on, below 2 ^ 53. Fixed is a decimal stand-in that obeys them and on which the tests
-- run.
--
-- Cart and Totals (Cart.antt; Totals.antt with Lines, Sums and Bounds) are src/common/totals/cart.ts and
-- totals.ts: `compute_totals` is computeTotals, `line_totals` the map over its lines.
--
-- KeyMap, Inventory and Db are the tables of prisma/schema.prisma: records for rows, lists for tables, a
-- map from (branch, product, variant) for the stock levels, and the movements, newest first. Db says what
-- is left out of each row.
--
-- Sales (Draft, Claims, Complete, Reverse) is src/pos/sales/sales.service.ts: the checks of a draft, what
-- its lines claim of the stock, `complete_sale` for completeSale with `persist` for its transaction, and
-- `void_sale`, `refund_sale` for the way back. The checks before the transaction read the tables at an
-- earlier moment than the transaction does, so `complete_sale` takes both. A refund asks Lockout first
-- (src/common/lockout/lockout.service.ts), whose writes stay when the refund fails. argon2 is a parameter.
--
-- Shifts is src/pos/shifts/shifts.service.ts and Restock src/portal/stock/stock.service.ts. Trade puts the
-- writes of Sales, Shifts and Restock on the same tables, as steps in any order, with the invariant that
-- they keep.
--
-- Scope is src/prisma/scoped-prisma.ts with src/prisma/model-scope-map.ts, the client through which every
-- query of a request passes. Scope.antt has the models and their scope columns and what is derived from
-- Prisma's data model; Query the arguments of a query as trees, rows, the context and the operations;
-- Filter the sets of the caller's businesses and branches and the filters on scope and soft deletes;
-- Police the checks of a create; Nested the rewriting of nested writes; Audit the audit rows; Mutate
-- `run_mutation` for runMutation, with `base` for what it reads beforehand and `tx` for what it writes on;
-- Dispatch `all_operations` for $allOperations. Prisma's own client is the record Engine, with the writes
-- it offers and, in `Obeys`, what is documented of them (nothing of `update_rows`, its
-- updateManyAndReturn); Memory is such a client over lists. The walk from a row to its business has fuel,
-- two rounds: a child's parent has a scope column itself.
--
-- Devices is the terminals themselves: src/pos/guards/terminal.guard.ts, which admits their requests, and
-- src/pos/pairing/pairing.service.ts, which makes them and lets them go. It has tables of its own, with
-- the columns that these two read.
--
-- Discounts is src/portal/discounts/discounts.service.ts, on the discounts that the drafts name.
--
-- Auth is src/auth: Sessions is auth.service.ts (`login`, `refresh`, `logout`, `verify_owner_credentials`),
-- Invites invite.service.ts and Totp totp.service.ts, on tables of their own with the columns that these
-- read. argon2, sha256, the random tokens, otplib and the demo data of a new owner are parameters; an
-- access token is its payload. Uses has the operations as steps in any order. `consume_token` reads the
-- token's row at an earlier moment than it marks it; the other operations are one step each.
--
-- Modifiers is the links of products to modifier groups in
-- src/portal/catalog/modifier-groups.service.ts: `set_product_groups` is setProductGroups, with
-- `build_link_replace_set` for the difference and `write_links` for what the nested writes do.
--
-- A transaction is one step: the row locks of the sale transaction are taken as what they are for. So is
-- an attempt at a PIN or a password: attempts in parallel, which the code does not keep apart, are not
-- modelled. A portal adjustment reads its level without a lock; what another request does between that
-- read and its write is not modelled. All recursion is structural, on lists of lines, rows and movements,
-- and on the further runs that the retries allow (two for the stock service, three for pairing); only the
-- walk of Scope takes fuel.
--
-- Not modelled: how the cached look-ups of a request carry over from one operation to the next, the
-- metadata of an audit row, and of nested writes `upsert`, `connectOrCreate`, `set` and an `update`
-- without `where` and `data`; the guards of src/auth, the portal's products, the modifier groups
-- themselves and the analytics; controllers, validation by decorators and serialisation. The other
-- components query the tables of Db directly, with the scope's filters written into their queries. A
-- condition that a decorator checks, such as a positive quantity, is a hypothesis where it matters.
pub mod Common
pub mod Money
pub mod Text
pub mod Cart
pub mod Totals
pub mod KeyMap
pub mod Inventory
pub mod Db
pub mod Lockout
pub mod Sales
pub mod Shifts
pub mod Restock
pub mod Trade
pub mod Discounts
pub mod Devices
pub mod Sample
pub mod Scope
pub mod Auth
pub mod Modifiers
