-- ===== src/Examples.antt =====
-- Concrete runs of the models: the theorems of Lib's list, applied to small inputs.
mod Api
mod Journeys
mod Tables
mod Limits
mod Streams
mod Attempts
mod Detections
mod Restarts
mod Loads
mod Suites
mod Alerting
mod Crashes
mod Scenarios
