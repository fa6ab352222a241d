-- ===== src/Server.antt =====
-- src/server.cpp
pub mod Session
pub mod Calls
pub mod Reply
pub mod Upload
pub mod Download
pub mod Start
pub mod Event
pub mod Conversation
pub mod Story
pub mod Total
pub mod Loop
pub mod Rounds
pub mod Listener
pub mod Main
pub mod Tests
pub mod Refuse
