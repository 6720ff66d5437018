-- ===== src/Arguments.antt =====
-- The command line parser of include/argument_parser.h and src/argument_parser.cpp.
pub mod Parser
pub mod Commands
pub mod Interpret
mod Tests
