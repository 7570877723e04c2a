-- ===== src/Inference.antt =====
-- internal/inference: the frame queue between capture and inference, the resource
-- governor and the client of the model.
pub mod Queue
pub mod Throttle
pub mod Client
pub mod Answer
pub mod Prompt
pub mod Encoding
pub mod Requests
