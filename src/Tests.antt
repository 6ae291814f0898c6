-- ===== src/Tests.antt =====
-- Runs of the definitions on small inputs, and the theorems at concrete inputs.
mod Redis
mod Database
mod Guarding
mod Threads
mod Texts
mod Stock
mod Rabbit
mod Brokers
mod Sockets
mod Failures
mod Driver
mod Pthreads
mod Parallel
mod Starting
