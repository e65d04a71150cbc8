-- ===== src/DataRoom.antt =====
-- lib/data-room.ts and the routes of app/api/data-rooms and app/api/room: rooms with documents, the links by which
-- visitors enter, and what visitors do. Times are seconds.
mod Tables
mod Manage
mod Links
mod Visit
mod Read
mod Safety
mod History
mod Sound
mod Kept
mod Cascades
mod Visits
mod Whole
mod Limits
mod Entry
mod Tests
