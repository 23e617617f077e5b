-- ===== src/Rules.antt =====
-- rd-std/src/rule: the rules that choose a net by what a connection is for.
pub mod Domain
pub mod Net
