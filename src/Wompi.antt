-- ===== src/Wompi.antt =====
-- The payment provider: src/integrations/wompi.
pub mod Adapter
pub mod Instruments
pub mod Charges
pub mod Webhooks
mod Tests
