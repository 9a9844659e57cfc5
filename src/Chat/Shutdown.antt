-- ===== src/Chat/Shutdown.antt =====
-- The end of the chat of cw11: an interrupt of server.c, and what it does to a client.
use sysops.Chat.Message.{Message}
use sysops.Chat.State.{Client, Server}
