-- ===== src/Devices.antt =====
-- The simulated devices: the pipeline of include/FpgaPipeline.hpp and the network card of
-- include/KernelBypass.hpp.
pub mod FpgaPipeline
pub mod KernelBypass
mod Tests
