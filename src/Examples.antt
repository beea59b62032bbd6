-- ===== src/Examples.antt =====
-- The theorems of the development at concrete inputs, and runs of the definitions.
mod Codec
mod Keys
mod Daemon
mod Pbr
mod Shutdown
mod Config
mod Control
mod Logger
