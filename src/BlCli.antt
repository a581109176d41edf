-- ===== src/BlCli.antt =====
-- firmware/bootloader/src/bl_cli.c: the command line of the bootloader.
pub mod Text
pub mod Commands
pub mod Process
pub mod Numbers
pub mod Framing
pub mod Answer
pub mod Checksum
mod Tests
