-- ===== src/PathMatch.antt =====
-- match_path.c: shell patterns against path names, after libarchive's lafe_pathmatch().
pub mod Class
pub mod Loop
pub mod Fuel
pub mod Safe
pub mod Literal
pub mod Render
pub mod Literals
