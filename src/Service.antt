-- ===== src/Service.antt =====
-- mcubridge/mcubridge/services/runtime.py: what the service does with the requests of the cloud and with
-- the frames of the MCU, over the components that have modules of their own.
pub mod Access
pub mod Pins
pub mod Requests
pub mod Board
pub mod Shell
pub mod Files
pub mod Frames
pub mod Node
pub mod Toy
