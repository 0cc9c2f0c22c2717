-- ===== src/Http.antt =====
-- sylar/http/http.h and http.cpp: methods, status codes, requests and responses. Texts are lists of
-- character codes.
pub mod Methods
pub mod MethodTexts
pub mod Status
pub mod Headers
pub mod Request
pub mod Accessors
pub mod Printing
pub mod Parser
pub mod Session
pub mod Server
mod Examples
