-- ===== src/Rekey/Agreement/Messages.antt =====
-- One V1 exchange by its messages: what a request and its response leave in the controllers of the
-- server and the client (src/internal/protocol/rekey/rekey.go and initiator.go).
use tun_go.ServicePacket
