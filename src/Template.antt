-- ===== src/Template.antt =====
-- hcv_template.cc and its classes in hcv_header.hh: template data, the dictionary of expanders, and
-- the expansion of processing instructions in files and streams.
pub mod Data
pub mod Registry
pub mod Expand
pub mod Language
pub mod Expanders
pub mod Initialize
pub mod Extends
pub mod Email
