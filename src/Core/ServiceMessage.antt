-- ===== src/Core/ServiceMessage.antt =====
-- src/core/service_message.c: the NodeId of the request type in front of a service message.
pub mod Prefix
use micro_opcua.Base.{ℕ, Option, none, some, List, []}
use micro_opcua.Base.Outcome.{Outcome, ok, err, fault, Prog}
use micro_opcua.Encoding.Reader.{Reader, reader_init}
use micro_opcua.Encoding.Writer.{Writer, writer_init}
use micro_opcua.Encoding.NodeId.{NodeId, read_nodeid, write_nodeid}

-- The reader is local to the function; the state is `*offset`, which changes on success only.
finish_parse : ℕ → Outcome Reader NodeId → Outcome ℕ NodeId
finish_parse offset (ok id r) = ok id r.position
finish_parse offset (err e r) = err e offset
finish_parse offset fault = fault

-- The buffer is never NULL.
pub parse_service_prefix : List ℕ → ℕ → Prog ℕ NodeId
unfolding finish_parse
parse_service_prefix bytes length offset =
    finish_parse offset
      (read_nodeid (record (reader_init (some bytes) length) { position = offset }))

abbrev memory_of : Option (List ℕ) → List ℕ
memory_of none = []
memory_of (some m) = m

finish_write : Outcome Writer (Unit {0}) → Outcome (List ℕ) ℕ
finish_write (ok u w) = ok w.position (memory_of w.buffer)
finish_write (err e w) = err e (memory_of w.buffer)
finish_write fault = fault

-- The state is the buffer; the result is the new `*offset`.
pub write_service_prefix : ℕ → ℕ → NodeId → Prog (List ℕ) ℕ
unfolding finish_write
write_service_prefix length offset id m =
    finish_write
      (write_nodeid (some id) (record (writer_init (some m) length) { position = offset }))
