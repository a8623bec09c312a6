-- ===== src/Types.antt =====
-- crates/types/src: the data that the command line client, the server and the worker exchange.
pub mod Portage
pub mod Client
pub mod Workorder
pub mod Samples
