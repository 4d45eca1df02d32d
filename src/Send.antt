-- ===== src/Send.antt =====
-- The operations of src/mp.c that post a request from the CPU: `mp_irecv`, `mp_irecvv`, `mp_isend`,
-- `mp_isendv`, `mp_iput` and `mp_iget`. Each returns its code and what it stores in `*req_t`.
mod Fill
mod TwoSided
mod OneSided
unfoldable pub use Fill.*
unfoldable pub use TwoSided.*
unfoldable pub use OneSided.*
