-- ===== src/Mock/Command.antt =====
-- internal/provider/mock/command.go: the containers of a pod are started as shell commands. `Scripts`
-- copies the files of the volumes, `Script` runs one command, `Parallel` starts all containers.
pub mod Scripts
pub mod Script
pub mod Parallel
pub mod Total
pub mod Order
