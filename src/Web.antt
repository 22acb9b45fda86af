-- ===== src/Web.antt =====
-- hcv_web.cc: the cookies and the address of the web server.
pub mod Cookie
pub mod Url
pub mod Server
pub mod ErrorPage
pub mod Status
pub mod Handlers
pub mod Routes
