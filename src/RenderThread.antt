-- ===== src/RenderThread.antt =====
-- The render thread of hwui: libs/hwui/renderthread/RenderThread.cpp and .h, RenderTask.h.
pub mod TaskQueue
pub mod Wakeup
