-- ===== src/Gpu.antt =====
-- internal/gpu: the collectors for AMD GPUs (amdgpu.go) and Apple Silicon (applegpu.go, applepoll.go,
-- ioreg.go).
pub mod Float
pub mod Apple
pub mod Amd
