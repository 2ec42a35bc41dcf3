-- ===== src/Redis.antt =====
-- The Redis server, the clock and the id generator, as the code under src/ sees them.
--
-- None of them is code of the repository, so they are a parameter: `Env` has the commands that the
-- modelled code issues, each with the behaviour that the Redis documentation states. A command may
-- throw; it has then run, or it has not. Keys are the calls of QueueNames and RegistryKeys
-- (src/constants.ts) that spell them; values are kept decoded, in place of their JSON.
pub mod Keys
pub mod Values
pub mod Data
pub mod Env
pub mod Async
pub mod Stored
pub mod Memory
