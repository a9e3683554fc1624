-- ===== src/Server.antt =====
-- Who may talk to the server, and where: authentication (auth.ts), WebSocket tickets (wsTickets.ts) and
-- the public addresses of services (mounts.ts).
pub mod Auth
pub mod Mounts
pub mod WsTickets
