-- ===== src/Views.antt =====
-- hcv_views.cc: the views of the web pages and the messages of their templates.
pub mod Message
pub mod Pages
pub mod Home
