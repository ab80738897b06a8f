-- ===== src/Samples.antt =====
-- btcpp_ros2_samples/src: the nodes and servers that show how the wrappers are used, and the
-- main functions.
pub mod SleepAction
pub mod SleepServer
pub mod SetBool
pub mod ReceiveString
pub mod RoundTrip
pub mod MyActionServer
pub mod Programs
mod Tests
