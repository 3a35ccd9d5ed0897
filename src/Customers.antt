-- ===== src/Customers.antt =====
-- Customers, of api/src/routes/customer.routes.ts.
pub mod Merge
