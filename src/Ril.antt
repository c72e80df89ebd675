-- ===== src/Ril.antt =====
-- android2.1_init/hard_ril: the radio interface.
pub mod Telephony
pub mod Radio
pub mod Cards
pub mod Sim
pub mod Fields
pub mod Calls
pub mod Reports
pub mod DataCalls
pub mod Requests
pub mod Setup
pub mod Dispatch
pub mod Networks
pub mod AtTok
pub mod Misc
pub mod Responses
pub mod Channel
pub mod Commands
pub mod Issue
pub mod Readline
pub mod Timers
pub mod Watches
mod Tests
