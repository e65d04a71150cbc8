-- ===== src/Store.antt =====
-- store/index.ts, the client's state: its lists, and what each action does to them. An action takes
-- the slice of the state that it reads and returns the slice that it sets.
pub mod Selection
pub mod Notifications
pub mod Logs
pub mod Chat
pub mod Mirror
pub mod Unread
pub mod Messages
pub mod Panels
pub mod Usage
mod Tests
