-- ===== src/Main.antt =====
-- src/main.rs: the command line, the start of the program and its event loop.
pub mod Flag
pub mod Args
pub mod Start
pub mod Loop
pub mod Limits
pub mod Restart
pub mod Notifying
pub mod Ports
pub mod Rendering
