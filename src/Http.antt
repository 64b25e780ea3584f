-- ===== src/Http.antt =====
-- frontend/miniapp/miniprogram/utils/http.ts: requests with cancel tokens, and uploads of files.
pub mod Token
pub mod Toast
pub mod Request
pub mod Upload
mod Tests
mod UploadTests
