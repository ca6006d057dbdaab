-- ===== src/Tests.antt =====
-- Tests on concrete inputs, and an instance of each theorem at an input of the program.
mod Ring
mod System
mod Process
mod Network
mod Metrics
mod Remote
mod Follow
mod Agent
mod Transport
mod Auth
mod Sessions
mod Flush
mod Upgrade
mod Logs
mod Redact
mod Pipeline
