-- ===== src/Tools.antt =====
-- pbft/tools: the timers, and the queue of the events that they deliver.
pub mod Timer
pub mod Manager
