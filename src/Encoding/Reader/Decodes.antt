-- ===== src/Encoding/Reader/Decodes.antt =====
-- What it means that a decoder reads an encoding, and the primitive decoders of binary_reader.c.
use micro_opcua.Base.{
  ℕ, ◌+◌, ◌^◌, ◌<◌, ◌≤◌, ◌≡◌, refl, ap, Bool, true, false, not, some, List, [], ◌∷◌, ◌++◌,
  append-nil, append_assoc, length, length-append, get_elem?, get_elem?-append, take-append,
  drop-append, arith, ◌==◌, le→leb,
}
use micro_opcua.Base.Int.{ℤ, signed, unsigned, InRange, signed-unsigned, unsigned-lt}
use micro_opcua.Base.Status.{good}
use micro_opcua.Base.Outcome.{ok, Prog, ◌>>=◌, ◌>>◌, done}
use micro_opcua.Encoding.Le.{le_u16, le_u32, le_u64, le_u16_value, le_u32_value, le_u64_value}
use micro_opcua.Encoding.Reader.{
  Reader, ensure_bytes, byte_at, advance, bytes_at, get_u16, get_u32, get_u64, read_byte,
  read_boolean, read_sbyte, read_uint16, read_int16, read_uint32, read_int32, read_uint64,
  read_int64, read_float, read_double, read_statuscode,
}

-- A reader in good state that has consumed `before` and has `rest` ahead.
abbrev pub reader_at : List ℕ → List ℕ → Reader
reader_at before rest = record {
  buffer = some (before ++ rest);
  length = length (before ++ rest);
  position = length before;
  status = good;
}

-- Wherever `bytes` stand in a buffer, the decoder consumes just them and yields `a`.
pub record Decodes {A : Type 0} (m : Prog Reader A) (bytes : List ℕ) (a : A) : Type 0 where
  pub run :
      (before rest : List ℕ)
      → m (reader_at before (bytes ++ rest)) ≡ ok a (reader_at (before ++ bytes) rest)

pub reader_at-append :
    (before bytes rest : List ℕ)
    → record (reader_at before (bytes ++ rest)) { position = length before + length bytes }
      ≡ reader_at (before ++ bytes) rest
reader_at-append before bytes rest = rw (append_assoc before bytes rest, length-append before bytes)

pub done-Decodes : {A : Type 0} (a : A) → Decodes (done a) [] a
done-Decodes a = record { run = λ before rest. rw (append-nil before) }

pub >>=-Decodes :
    {A B : Type 0} (m : Prog Reader A) (f : A → Prog Reader B) (xs ys : List ℕ) (a : A) (b : B)
    → Decodes m xs a
    → Decodes (f a) ys b
    → Decodes (m >>= f) (xs ++ ys) b
>>=-Decodes m f xs ys a b h k = record {
  run = λ before rest. rw (
    append_assoc xs ys rest,
    h.run before (ys ++ rest),
    k.run (before ++ xs) rest,
    append_assoc before xs ys,
  );
}

-- What follows reads nothing.
pub >>=-Decodes_nil :
    {A B : Type 0} (m : Prog Reader A) (f : A → Prog Reader B) (xs : List ℕ) (a : A) (b : B)
    → Decodes m xs a
    → Decodes (f a) [] b
    → Decodes (m >>= f) xs b
>>=-Decodes_nil m f xs a b h k = rw (append-nil xs) at (>>=-Decodes m f xs [] a b h k)

-- A decoder whose value is wrapped.
pub >>=-done-Decodes :
    {A B : Type 0} (m : Prog Reader A) (f : A → B) (xs : List ℕ) (a : A)
    → Decodes m xs a
    → Decodes (m >>= λ x. done (f x)) xs (f a)
>>=-done-Decodes m f xs a h = record { run = λ before rest. rw (h.run before rest) }

ensure_bytes-ok :
    (n : ℕ) (before rest : List ℕ)
    → n ≤ length rest
    → ensure_bytes n (reader_at before rest) ≡ ok tt (reader_at before rest)
unfolding ensure_bytes
ensure_bytes-ok n before rest h = ground (arith, length-append before rest)

byte_at-ok :
    (k b : ℕ) (before rest : List ℕ)
    → get_elem? rest k ≡ some b
    → byte_at k (reader_at before rest) ≡ ok b (reader_at before rest)
unfolding byte_at
byte_at-ok k b before rest h = ground (arith, get_elem?-append before rest k)

-- A getter that finds `a` in the bytes ahead and changes nothing.
abbrev Peeks : {A : Type 0} → Prog Reader A → List ℕ → A → Type 0
Peeks get bytes a =
    (before rest : List ℕ)
    → get (reader_at before (bytes ++ rest)) ≡ ok a (reader_at before (bytes ++ rest))

ensured-Decodes :
    {A B : Type 0} (n : ℕ) (get : Prog Reader A) (f : A → B) (bytes : List ℕ) (a : A) (b : B)
    → length bytes ≡ n
    → Peeks get bytes a
    → f a ≡ b
    → Decodes (do ensure_bytes n; x ← get; advance n; done (f x)) bytes b
unfolding advance
ensured-Decodes n get f bytes a b e p q = record {
  run = λ before rest. rw (
    ensure_bytes-ok n before (bytes ++ rest) (omega (arith, length-append bytes rest)),
    p before rest,
    ← e,
    reader_at-append before bytes rest,
    q,
  );
}

byte-Peeks : (b : ℕ) → Peeks (byte_at 0) (b ∷ []) b
byte-Peeks b before rest = byte_at-ok 0 b before (b ∷ rest) refl

get_u16-Peeks : (v : ℕ) → v < 2 ^ 16 → Peeks get_u16 (le_u16 v) v
unfolding get_u16
get_u16-Peeks v h before rest =
    rw
      (byte_at-ok 0 _ before (le_u16 v ++ rest) refl, byte_at-ok 1 _ before (le_u16 v ++ rest) refl)
      (ap (λ x. ok x (reader_at before (le_u16 v ++ rest))) (le_u16_value v h))

get_u32-Peeks : (v : ℕ) → v < 2 ^ 32 → Peeks get_u32 (le_u32 v) v
unfolding get_u32
get_u32-Peeks v h before rest =
    rw
      (
        byte_at-ok 0 _ before (le_u32 v ++ rest) refl,
        byte_at-ok 1 _ before (le_u32 v ++ rest) refl,
        byte_at-ok 2 _ before (le_u32 v ++ rest) refl,
        byte_at-ok 3 _ before (le_u32 v ++ rest) refl,
      )
      (ap (λ x. ok x (reader_at before (le_u32 v ++ rest))) (le_u32_value v h))

get_u64-Peeks : (v : ℕ) → v < 2 ^ 64 → Peeks get_u64 (le_u64 v) v
unfolding get_u64
get_u64-Peeks v h before rest =
    rw
      (
        byte_at-ok 0 _ before (le_u64 v ++ rest) refl,
        byte_at-ok 1 _ before (le_u64 v ++ rest) refl,
        byte_at-ok 2 _ before (le_u64 v ++ rest) refl,
        byte_at-ok 3 _ before (le_u64 v ++ rest) refl,
        byte_at-ok 4 _ before (le_u64 v ++ rest) refl,
        byte_at-ok 5 _ before (le_u64 v ++ rest) refl,
        byte_at-ok 6 _ before (le_u64 v ++ rest) refl,
        byte_at-ok 7 _ before (le_u64 v ++ rest) refl,
      )
      (ap (λ x. ok x (reader_at before (le_u64 v ++ rest))) (le_u64_value v h))

pub bytes_at-Decodes :
    (xs : List ℕ) → Decodes (do s ← bytes_at (length xs); advance (length xs); done s) xs xs
unfolding bytes_at advance
bytes_at-Decodes xs = record {
  run = λ before rest. rw (
    drop-append before (xs ++ rest),
    take-append xs rest,
    le→leb (length before + length xs) (length (before ++ (xs ++ rest)))
        (omega (arith, length-append before (xs ++ rest), length-append xs rest)),
    reader_at-append before xs rest,
  );
}

pub read_byte-Decodes : (b : ℕ) → Decodes read_byte (b ∷ []) b
unfolding read_byte
read_byte-Decodes b = ensured-Decodes 1 _ (λ x. x) (b ∷ []) b b refl (byte-Peeks b) refl

abbrev pub bool_byte : Bool → ℕ
bool_byte true = 1
bool_byte false = 0

pub read_boolean-Decodes : (b : Bool) → Decodes read_boolean (bool_byte b ∷ []) b
unfolding read_boolean
read_boolean-Decodes true =
    ensured-Decodes 1 _ (λ x. not (x == 0)) (1 ∷ []) 1 true refl (byte-Peeks 1) refl
read_boolean-Decodes false =
    ensured-Decodes 1 _ (λ x. not (x == 0)) (0 ∷ []) 0 false refl (byte-Peeks 0) refl

pub read_sbyte-Decodes :
    (z : ℤ) → InRange (2 ^ 7) z → Decodes read_sbyte (unsigned (2 ^ 7) z ∷ []) z
unfolding read_sbyte
read_sbyte-Decodes z h =
    let v : ℕ = unsigned (2 ^ 7) z in
    ensured-Decodes 1 _ (signed (2 ^ 7)) (v ∷ []) v z refl (byte-Peeks v)
      (signed-unsigned (2 ^ 7) z h)

pub read_uint16-Decodes : (v : ℕ) → v < 2 ^ 16 → Decodes read_uint16 (le_u16 v) v
unfolding read_uint16
read_uint16-Decodes v h = ensured-Decodes 2 _ (λ x. x) (le_u16 v) v v refl (get_u16-Peeks v h) refl

pub read_int16-Decodes :
    (z : ℤ) → InRange (2 ^ 15) z → Decodes read_int16 (le_u16 (unsigned (2 ^ 15) z)) z
unfolding read_int16
read_int16-Decodes z h =
    let v : ℕ = unsigned (2 ^ 15) z in
    ensured-Decodes 2 _ (signed (2 ^ 15)) (le_u16 v) v z refl
      (get_u16-Peeks v (unsigned-lt (2 ^ 15) z (omega arith))) (signed-unsigned (2 ^ 15) z h)

pub read_uint32-Decodes : (v : ℕ) → v < 2 ^ 32 → Decodes read_uint32 (le_u32 v) v
unfolding read_uint32
read_uint32-Decodes v h = ensured-Decodes 4 _ (λ x. x) (le_u32 v) v v refl (get_u32-Peeks v h) refl

pub read_int32-Decodes :
    (z : ℤ) → InRange (2 ^ 31) z → Decodes read_int32 (le_u32 (unsigned (2 ^ 31) z)) z
unfolding read_int32
read_int32-Decodes z h =
    let v : ℕ = unsigned (2 ^ 31) z in
    ensured-Decodes 4 _ (signed (2 ^ 31)) (le_u32 v) v z refl
      (get_u32-Peeks v (unsigned-lt (2 ^ 31) z (omega arith))) (signed-unsigned (2 ^ 31) z h)

pub read_uint64-Decodes : (v : ℕ) → v < 2 ^ 64 → Decodes read_uint64 (le_u64 v) v
unfolding read_uint64
read_uint64-Decodes v h = ensured-Decodes 8 _ (λ x. x) (le_u64 v) v v refl (get_u64-Peeks v h) refl

pub read_int64-Decodes :
    (z : ℤ) → InRange (2 ^ 63) z → Decodes read_int64 (le_u64 (unsigned (2 ^ 63) z)) z
unfolding read_int64
read_int64-Decodes z h =
    let v : ℕ = unsigned (2 ^ 63) z in
    ensured-Decodes 8 _ (signed (2 ^ 63)) (le_u64 v) v z refl
      (get_u64-Peeks v (unsigned-lt (2 ^ 63) z (omega arith))) (signed-unsigned (2 ^ 63) z h)

pub read_float-Decodes : (v : ℕ) → v < 2 ^ 32 → Decodes read_float (le_u32 v) v
unfolding read_float
read_float-Decodes = read_uint32-Decodes

pub read_double-Decodes : (v : ℕ) → v < 2 ^ 64 → Decodes read_double (le_u64 v) v
unfolding read_double
read_double-Decodes = read_uint64-Decodes

pub read_statuscode-Decodes : (v : ℕ) → v < 2 ^ 32 → Decodes read_statuscode (le_u32 v) v
unfolding read_statuscode
read_statuscode-Decodes = read_uint32-Decodes
