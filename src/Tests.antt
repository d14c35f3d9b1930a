-- ===== src/Tests.antt =====
-- Runs of the model on concrete inputs.
mod Machine
mod Tables
mod Cpus
mod Devices
mod Exits
mod Boot
mod Nic
mod Loop
mod Kept
mod Receive
mod Threads
mod Wired
