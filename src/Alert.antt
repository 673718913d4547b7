-- ===== src/Alert.antt =====
-- internal/alert/dispatcher.go: the alert dispatcher. Regular expressions, the circuit breaker
-- (sony/gobreaker), JSON encoding and the network are parameters, in `Alert.Services`.
pub mod Services
pub mod Creation
pub mod Payload
pub mod Rules
pub mod Fire
pub mod Evaluate
pub mod Delivery
pub mod Matching
pub mod Chosen
pub mod Unread
pub mod Refresh
pub mod Run
