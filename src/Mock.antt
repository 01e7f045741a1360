-- ===== src/Mock.antt =====
-- pbft/mock_utils.go: the store that stands in for the consumer's.
pub mod Persist
