-- ===== src/Tests.antt =====
-- Runs of the model at concrete inputs, and the theorems at inputs that meet their hypotheses.
mod Samples
mod Market
mod Vcpus
mod Tokens
mod Configs
mod Registry
mod Energy
mod Groups
mod Frequencies
mod Provisioning
mod Starts
mod RoundTrips
mod Sessions
mod Control
mod Addresses
mod Threads
mod Dumps
