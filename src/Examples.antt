-- ===== src/Examples.antt =====
-- The theorems applied to concrete inputs, with what the parameters may be.
mod Numbers
mod Access
mod Benchmarks
mod Api
mod Requests
mod Forms
mod Hardware
mod Images
mod Items
mod Canvas
mod Backgrounds
mod Scenes
mod Navigation
mod BuildPc
mod Creating
mod Tools
mod Dialogs
