-- ===== src/Examples.antt =====
-- Concrete runs, and each theorem that has hypotheses applied to one.
mod Board
mod Boxes
mod Bursts
mod Drivers
mod Fixture
mod Frames
mod Links
mod Memory
mod Pool
mod Rounds
mod Schedules
mod Single
mod Sorting
mod Queues
mod Registers
mod Starts
mod Streams
mod Wires
