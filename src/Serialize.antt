-- ===== src/Serialize.antt =====
-- magic/lua_serialize.cpp: Lua values to bytes and back.
pub mod Value
pub mod Sink
pub mod Pack
pub mod Unpack
pub mod Code
pub mod Integer
pub mod Scalars
pub mod Errors
pub mod Appends
pub mod Written
pub mod Ends
pub mod Total
pub mod Tables
pub mod RoundTrip
pub mod Whole
pub mod Api
pub mod Calls
pub mod First
pub mod Concat
