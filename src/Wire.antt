-- ===== src/Wire.antt =====
-- How the program reads and writes byte strings: readers that thread an offset, and what it
-- means that a reader takes back what an encoder wrote.
pub mod Reader
pub mod RoundTrip
pub mod Steps
pub mod Until
pub mod Counted
