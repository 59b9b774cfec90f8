-- ===== src/Tests.antt =====
-- Each theorem with hypotheses or parameters, applied at one concrete input.
mod Queues
mod Scheduling
mod Spaces
mod Processes
mod Keys
mod Memory
mod Pages
mod Devices
mod Strings
mod Lists
mod Gates
mod Files
mod Drives
