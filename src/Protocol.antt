-- ===== src/Protocol.antt =====
-- shared/include/f4mp/Protocol.hpp: the messages, and how each is written and read. `Read` of a
-- message returns it with the reader; `checked` adds the result `r.Ok()` of that method.
pub mod Messages
pub mod Layout
pub mod Names
