-- ===== src/Examples.antt =====
-- Concrete inputs for the library: runs of the definitions, and the theorems at those inputs.
mod Codec
mod Numbers
mod Documents
mod Pools
mod Setup
mod Totals
mod Jobs
mod Endpoint
mod Loop
mod Target
mod Work
mod Socket
mod Mining
