-- ===== src/Routing.antt =====
-- lib/routing.ts: whether a payment can be funded, and the routes that it is offered. A failed read
-- of the deployment files is not modelled, and the texts for display are left out.
pub mod Quote
pub mod Offers
mod Promises
mod Check
mod Tests
