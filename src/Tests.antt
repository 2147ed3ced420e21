-- ===== src/Tests.antt =====
-- Runs of the code at concrete inputs, and the theorems applied there.
mod Log
mod Framer
mod Session
mod Server
mod Text
mod Export
mod Manage
mod Printers
mod Transfer
mod Packets
