-- ===== src/Tests.antt =====
-- Concrete inputs: tests of the definitions by evaluation, and the theorems applied to inputs that
-- meet their hypotheses.
mod Placement
mod Scaling
mod Prefix
mod Usage
mod Autoscaling
mod Gateway
mod Workers
mod Engine
mod Upstream
mod Register
mod Instances
mod Probes
