-- ===== src/Sort.antt =====
-- The sort demo, demos/sort_demo/linux: `Bubble` is bubblesort.c, `Merge` is merge.c, `Demo` is
-- data.c, timing.c and what sort_demo.c computes.
pub mod Sorted
pub mod Bubble
pub mod Merge
pub mod Demo
pub mod Threads
