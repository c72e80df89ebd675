-- ===== src/Init.antt =====
-- android2.1_init/init: the init program. Each child names the file of the source it models.
pub mod Links
pub mod Keywords
pub mod Lexer
pub mod Platform
pub mod Uid
pub mod Config
pub mod Parser
pub mod Properties
pub mod World
pub mod Queue
pub mod Services
pub mod Builtins
pub mod Load
pub mod Keychords
pub mod Machine
pub mod Devices
pub mod Options
pub mod Boot
mod Tests
