-- ===== src/Sales.antt =====
-- src/pos/sales/sales.service.ts, the sale transaction, void and refund.
pub mod Draft
pub mod Claims
pub mod Complete
pub mod Reverse
mod Tests
