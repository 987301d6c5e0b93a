-- ===== src/Examples.antt =====
-- The theorems at concrete inputs, and runs of the definitions.
mod RtpBytes
mod Configs
mod Files
mod Tables
mod Recordings
mod Rows
mod Events
mod Objects
mod Copies
mod Streams
mod Streamings
mod Texts
mod Sockets
mod Following
mod Starts
