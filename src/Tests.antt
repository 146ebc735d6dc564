-- ===== src/Tests.antt =====
-- Runs of the definitions on concrete inputs, and the instances of the theorems.
mod Bitmap
mod Planes
mod Ownership
mod Addresses
mod Machine
mod Cache
mod Merkle
mod Memory
mod Execution
mod Storage
mod Visiting
mod Workers
