-- ===== src/Rdma.antt =====
-- rdma/rc_example.c: the RDMA example over a reliable connection, client and server. The program
-- talks to sockets and to the verbs library; each such call is an event, and what it answers is
-- decided by an environment that the definitions take as an argument.
pub mod Types
pub mod Machine
pub mod Socket
pub mod Post
pub mod Qp
pub mod Create
pub mod Stays
pub mod Stops
pub mod Destroy
pub mod Connect
pub mod Options
pub mod Main
mod Tests
