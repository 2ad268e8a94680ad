-- ===== src/Core/ServiceMessage/Prefix.antt =====
-- The prefix of a service message is read back, and reading it is safe.
use micro_opcua.Base.{ℕ, ◌≤◌, ◌≡◌, ◌≢◌, refl, some, List, ◌++◌, length, drop}
use micro_opcua.Base.Status.{good}
use micro_opcua.Base.Outcome.{Outcome, ok, err, fault}
use micro_opcua.Encoding.Reader.{Reader, reader_init}
use micro_opcua.Encoding.Reader.Safety.{SafeOutcome}
use micro_opcua.Encoding.NodeId.{NodeId}
use micro_opcua.Encoding.NodeId.Safety.{read_nodeid-Safe}
use micro_opcua.Encoding.NodeId.RoundTrip.{
  IsNodeId, nodeid_bytes, read_nodeid-Decodes, write_nodeid-Emits,
}
use micro_opcua.Core.ServiceMessage.{
  finish_parse, parse_service_prefix, finish_write, write_service_prefix,
}

-- A numeric or string NodeId in range that fits the buffer at the offset is written there, the offset
-- moves behind it, the rest of the buffer is kept, and parsing from the same offset yields the same NodeId
-- and the same new offset.
pub parse-write_service_prefix :
    (before room : List ℕ) (id : NodeId)
    → IsNodeId id
    → length (nodeid_bytes id) ≤ length room
    → (write_service_prefix (length (before ++ room)) (length before) id (before ++ room)
        ≡ ok
            (length (before ++ nodeid_bytes id))
            ((before ++ nodeid_bytes id) ++ drop (length (nodeid_bytes id)) room))
      × (parse_service_prefix
            (before ++ (nodeid_bytes id ++ drop (length (nodeid_bytes id)) room))
            (length (before ++ (nodeid_bytes id ++ drop (length (nodeid_bytes id)) room)))
            (length before)
          ≡ ok id (length (before ++ nodeid_bytes id)))
unfolding write_service_prefix finish_write parse_service_prefix finish_parse
parse-write_service_prefix before room id h fits = (
  rw ((write_nodeid-Emits id h).fits before room fits),
  rw ((read_nodeid-Decodes id h).run before (drop (length (nodeid_bytes id)) room)),
)

abbrev pub PrefixOutcome : ℕ → ℕ → Outcome ℕ NodeId → Type 0
PrefixOutcome n offset (ok id p) = (offset ≤ p) × (p ≤ n)
PrefixOutcome n offset (err e p) = (e ≢ good) × (p ≡ offset)
PrefixOutcome n offset fault = ⊥

finish_parse-PrefixOutcome :
    (r : Reader) (o : Outcome Reader NodeId)
    → r.position ≤ r.length
    → SafeOutcome r o
    → PrefixOutcome r.length r.position (finish_parse r.position o)
unfolding finish_parse
finish_parse-PrefixOutcome r (ok id s) within h = (h.forward, h.within within)
finish_parse-PrefixOutcome r (err e s) within h = (h.1, refl)
finish_parse-PrefixOutcome r fault within h = h

-- On every buffer of at least `n` bytes and every offset in it, parsing the prefix stays in bounds; the
-- new offset lies between the old one and `n`, and a failure, whose status is never MU_STATUS_GOOD, leaves
-- the offset.
pub parse_service_prefix-PrefixOutcome :
    (bytes : List ℕ) (n offset : ℕ)
    → n ≤ length bytes
    → offset ≤ n
    → PrefixOutcome n offset (parse_service_prefix bytes n offset)
unfolding parse_service_prefix
parse_service_prefix-PrefixOutcome bytes n offset fits within =
    finish_parse-PrefixOutcome (record (reader_init (some bytes) n) { position = offset }) _ within
      (read_nodeid-Safe.run (record (reader_init (some bytes) n) { position = offset }) fits)
