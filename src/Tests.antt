-- ===== src/Tests.antt =====
-- Small machines on which the definitions run, and the theorems at them.
mod State
mod Tables
mod Slots
mod Memory
mod System
mod Program
mod Bits
mod Numbers
mod Threads
mod Blocks
mod Volume
mod Arrays
mod Moves
