-- ===== src/Encoding/Text/RoundTrip.antt =====
-- What binary_string.c writes for a String, and that it reads it back.
use micro_opcua.Base.{
  ℕ, ◌+◌, ◌^◌, ◌≤◌, ◌≡◌, refl, Option, none, some, List, [], ◌∷◌, ◌++◌, length, length-append, take,
  arith, le→leb, le→ltb_false, lt→ltb,
}
use micro_opcua.Base.Int.{pos, minus_one, unsigned, InRange}
use micro_opcua.Base.Outcome.{◌>>◌}
use micro_opcua.Encoding.Le.{le_u32}
use micro_opcua.Encoding.Reader.Decodes.{
  Decodes, >>=-Decodes, done-Decodes, bytes_at-Decodes, read_int32-Decodes,
}
use micro_opcua.Encoding.Writer.Emits.{
  Emits, Sticky, >>-Emits, >>-Sticky, done-Emits, put_bytes-advance,
}
use micro_opcua.Encoding.Writer.Primitives.{write_int32-Emits, write_int32-Sticky}
use micro_opcua.Encoding.Text.{
  Str, null_str, max_encoded_string_length, ensure_string_payload, read_payload, read_str_of_length,
  read_string, read_bytestring, copy_str, write_payload, write_string, write_bytestring,
}

abbrev pub str_of : List ℕ → Str
str_of bytes = record { length = pos (length bytes); bytes = some bytes }

-- The strings that a decoder can yield: null, or at most 4096 bytes.
pub data IsStr : Str → Type 0 where
  null : IsStr null_str
  text : (bytes : List ℕ) → length bytes ≤ max_encoded_string_length → IsStr (str_of bytes)

abbrev payload : Option (List ℕ) → List ℕ
payload none = []
payload (some bytes) = bytes

-- The length as an Int32, and the bytes.
abbrev pub str_bytes : Str → List ℕ
str_bytes s = le_u32 (unsigned (2 ^ 31) s.length) ++ payload s.bytes

payload-Decodes :
    (bytes : List ℕ)
    → Decodes
        (ensure_string_payload (pos (length bytes)) >> read_payload (length bytes))
        bytes
        (str_of bytes)
unfolding ensure_string_payload read_payload
payload-Decodes bytes = record {
  run = λ before rest. ground (
    arith,
    (bytes_at-Decodes bytes).run before rest,
    length-append before (bytes ++ rest),
    length-append bytes rest,
  );
}

str_of_length-Decodes :
    (s : Str) → IsStr s → Decodes (read_str_of_length s.length) (payload s.bytes) s
unfolding read_str_of_length
str_of_length-Decodes s null = done-Decodes null_str
str_of_length-Decodes s (text bytes h) =
    rw (le→ltb_false max_encoded_string_length (length bytes) h) (payload-Decodes bytes)

IsStr-InRange : (s : Str) → IsStr s → InRange (2 ^ 31) s.length
IsStr-InRange s null = omega arith
IsStr-InRange s (text bytes h) = omega arith

pub read_string-Decodes : (s : Str) → IsStr s → Decodes read_string (str_bytes s) s
unfolding read_string
read_string-Decodes s h =
    >>=-Decodes _ _ (le_u32 (unsigned (2 ^ 31) s.length)) (payload s.bytes) s.length s
      (read_int32-Decodes s.length (IsStr-InRange s h)) (str_of_length-Decodes s h)

take-length : (bytes : List ℕ) → take (length bytes) bytes ≡ bytes
take-length [] = refl
take-length (b ∷ bytes) = rw (take-length bytes)

payload-Emits : (bytes : List ℕ) → Emits (write_payload (length bytes) (some bytes)) bytes
unfolding write_payload copy_str
payload-Emits [] = done-Emits
payload-Emits (b ∷ bytes) = record {
  fits = λ before room h.
      rw
        (
          lt→ltb 0 (length (b ∷ bytes)) (omega arith),
          le→ltb_false (length (before ++ room)) (length before + length (b ∷ bytes))
              (omega (arith, length-append before room)),
          le→leb (length (b ∷ bytes)) (length (b ∷ bytes)) (omega arith),
          take-length (b ∷ bytes),
        )
        (put_bytes-advance (b ∷ bytes) before room h);
  full = λ before room h.
      rw
        (
          lt→ltb 0 (length (b ∷ bytes)) (omega arith),
          lt→ltb (length (before ++ room)) (length before + length (b ∷ bytes))
              (omega (arith, length-append before room)),
        )
        (refl, (room, refl, refl));
}

pub write_string-Emits : (s : Str) → IsStr s → Emits (write_string (some s)) (str_bytes s)
unfolding write_string
write_string-Emits s null = write_int32-Emits minus_one
write_string-Emits s (text bytes h) = rw (le→ltb_false max_encoded_string_length (length bytes) h) (
    >>-Emits _ _ (le_u32 (unsigned (2 ^ 31) (pos (length bytes)))) bytes
      (write_int32-Emits (pos (length bytes))) (payload-Emits bytes))

pub write_string-Sticky : (s : Str) → IsStr s → Sticky (write_string (some s))
unfolding write_string
write_string-Sticky s null = write_int32-Sticky minus_one
write_string-Sticky s (text bytes h) =
    rw (le→ltb_false max_encoded_string_length (length bytes) h)
      (>>-Sticky _ _ (write_int32-Sticky (pos (length bytes))))

pub read_bytestring-Decodes : (s : Str) → IsStr s → Decodes read_bytestring (str_bytes s) s
unfolding read_bytestring
read_bytestring-Decodes = read_string-Decodes

pub write_bytestring-Emits : (s : Str) → IsStr s → Emits (write_bytestring (some s)) (str_bytes s)
unfolding write_bytestring
write_bytestring-Emits = write_string-Emits

pub write_bytestring-Sticky : (s : Str) → IsStr s → Sticky (write_bytestring (some s))
unfolding write_bytestring
write_bytestring-Sticky = write_string-Sticky
