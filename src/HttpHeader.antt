-- ===== src/HttpHeader.antt =====
-- http_header.c and http_header.h
pub mod Fields
pub mod Hash
pub mod Sort
pub mod Search
pub mod Collection
pub mod Parse
pub mod ToStr
