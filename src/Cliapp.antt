-- ===== src/Cliapp.antt =====
-- internal/cliapp: the checks of the flags, the exit codes, and the actions over a driver and an
-- output.
pub mod Config
pub mod Exit
pub mod Actions
pub mod Interfaces
pub mod Startup
pub mod DryRun
pub mod Run
pub mod Program
pub mod Args
pub mod Parse
