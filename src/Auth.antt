-- ===== src/Auth.antt =====
-- src/auth/jwt.cpp: hashing, encoding and tokens.
pub mod Base64
pub mod Sha
pub mod Jwt
