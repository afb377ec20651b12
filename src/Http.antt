-- ===== src/Http.antt =====
-- server/internal/transport/http.
pub mod JsonName
pub mod Response
pub mod Bearer
pub mod ClientIp
pub mod Dto
pub mod Api
pub mod EventHandler
pub mod AccountHandler
pub mod Keeps
pub mod Router
pub mod Controller
