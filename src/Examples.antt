-- ===== src/Examples.antt =====
-- The theorems applied at concrete inputs.
mod Wires
mod Payloads
mod Promises
mod Rpcs
mod Names
mod Waits
mod VatRuns
mod Queues
mod AwaitRuns
mod SturdyHosts
