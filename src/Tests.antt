-- ===== src/Tests.antt =====
-- The theorems at concrete inputs.
mod Data
mod Coding
mod Settings
mod Groups
mod Tables
mod Running
mod Scrolling
mod Radiotext
mod Sharing
mod Serving
mod Processing
mod Lifecycles
mod Tools
mod Interface
