-- ===== src/Types.antt =====
-- The data of include/mp.h and src/mp_internal.h: constants, enumerations, work requests, the
-- request and the client record.
mod Enums
mod Wire
mod Requests
mod Clients
pub use Enums.*
pub use Wire.*
pub use Requests.*
pub use Clients.*
