-- ===== src/Shell.antt =====
-- The line editor of the shell: kernel/src/kernel/shell/shell.c, with the string functions of
-- kernel/src/x86_64/utils/util.c that it calls.
pub mod Text
pub mod Screen
pub mod Line
pub mod Input
pub mod View
pub mod Edit
pub mod Valid
pub mod Safe
pub mod History
mod Tests
pub mod Parser
pub mod Word
pub mod Words
pub mod Commands
pub mod Dispatch
pub mod Kill
