-- ===== src/Cli.antt =====
-- pkg/cli: the command line. What a command prints is a text or a list of texts that it returns; cobra
-- and the tab writer are left out.
pub mod DryRun
pub mod Verdict
pub mod Audits
pub mod Print
pub mod Tables
pub mod Report
