-- ===== src/App.antt =====
-- The application of the demo: demos/demo1/src/app.cpp.
pub mod Keys
pub mod Config
pub mod Writing
pub mod Loading
pub mod Start
pub mod Ready
