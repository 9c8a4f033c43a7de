-- ===== src/Agent.antt =====
-- internal/agent/agent.go: one chat turn of an agent: the history, the calls of the model, the tool
-- rounds, and what is written to memory. `Config` has the agent and its options, `State` what a turn
-- reads and writes, `Calls`, `History`, `Tools` and `Turn` the steps in the order of the code.
pub mod Config
pub mod State
pub mod Calls
pub mod History
pub mod Tools
pub mod Turn
pub mod Boxes
