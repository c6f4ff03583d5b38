-- ===== src/Root.antt =====
-- internal/commands/root: the root command's options, taint, flags, tracing and set-up, and
-- internal/provider: the providers it chooses from.
pub mod Opts
pub mod Defaults
pub mod Taint
pub mod Flag
pub mod Flags
pub mod Tracing
pub mod Store
pub mod Command
pub mod Main
