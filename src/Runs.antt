-- ===== src/Runs.antt =====
-- The theorems at concrete inputs.
mod Wire
mod Frames
mod Listeners
mod Values
mod Polls
mod Devices
mod Commands
mod Outputs
mod Durations
mod Arguments
mod Plants
mod Probes
mod Whole
