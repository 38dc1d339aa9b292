-- ===== src/Witnesses.antt =====
-- The properties at concrete inputs, most of them on the sample chat.
mod Accounts
mod Doors
mod Frames
mod Reads
mod Wire
mod Journal
mod Members
