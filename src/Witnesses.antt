-- ===== src/Witnesses.antt =====
-- Tests of the definitions, and each theorem at an input that meets its hypotheses.
mod Settings
mod Cycles
mod Uploads
mod Daemons
mod Gadgets
mod Journals
mod Beats
mod Deltas
mod Setups
mod Networks
mod Mediums
mod Telemetries
mod Startups
