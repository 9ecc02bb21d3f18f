-- ===== src/Turn.antt =====
-- app/main.py: the chat turn, `_run_chat_turn`, in the stages that its comments name.
pub mod Request
pub mod Route
pub mod Context
pub mod Persist
pub mod Run
pub mod Stages
pub mod Protection
pub mod Analysis
pub mod Audited
pub mod Stream
pub mod Dispatch
