-- ===== src/Examples.antt =====
-- The theorems at concrete inputs.
mod Toy
mod ToyWire
mod Keys
mod Links
mod Queues
mod Exchanges
mod Rekeys
mod Limits
mod Deliveries
mod Files
mod Checkpointed
mod Requested
mod Schedules
mod Discoveries
mod Endpoints
mod Pinnings
