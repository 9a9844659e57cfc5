-- ===== src/Chat/Examples.antt =====
-- Runs of the chat server and of its wire format on small inputs.
mod Wire
mod Rooms
mod Registration
mod Chatting
mod Heartbeat
mod Loop
mod Clients
mod Start
mod Conversation
