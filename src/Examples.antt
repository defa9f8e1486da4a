-- ===== src/Examples.antt =====
-- Concrete inputs on which the theorems of the library apply. No code of the repository is modelled
-- here.
mod Numbers
mod Bridge
mod Server
mod Scene
mod S2e
mod Scenario
mod Measurement
mod Runtime
