-- ===== src/Examples.antt =====
-- Runs of the models on concrete inputs, and the theorems at them.
mod Responses
mod Structs
mod Headers
mod Primitives
mod Requests
mod Pairing
mod Sessions
mod Handlers
mod Loops
