-- ===== src/Scenes.antt =====
-- The WebGL scenes of the home page: frontend/src/features/home. Scenes/Frames is hooks/useThreeScene.ts,
-- Scenes/Disposal the materials of utils/three.ts, Scenes/Glow its glows,
-- Scenes/Chart components/benchmark-chart-scene.tsx, and Scenes/PcModel components/pc-model-scene.tsx.
pub mod Frames
pub mod Disposal
pub mod Glow
pub mod Chart
pub mod PcModel
