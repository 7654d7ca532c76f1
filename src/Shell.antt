-- ===== src/Shell.antt =====
-- The shell (user/cmds/shell): how a command line is parsed.
pub mod Chars
pub mod Parser
