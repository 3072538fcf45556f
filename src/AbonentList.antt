-- ===== src/AbonentList.antt =====
-- AbonentList: a subscriber directory as a doubly linked list on the heap.
pub mod Strings
pub mod Memory
pub mod Directory
pub mod Menu
