-- ===== src/Encoding/Reader/Safety.antt =====
-- Memory safety of the decoders: what any decoder built from the primitives of binary_reader.c may do.
pub mod Primitives
use micro_opcua.Base.{
  ℕ, ◌+◌, ◌-◌, ◌≤◌, ◌≡◌, ◌≢◌, refl, sym, ◌⊎◌, inl, inr, Bool, true, false, ◌&&◌, not, Option, none,
  some, List, leb, ◌==◌, if◌then◌else◌, length, get_elem?, get_elem?-lt, Bool-cases, Option-cases,
  arith, take, drop,
}
use micro_opcua.Base.Status.{good, bad_internalerror, bad_decodingerror}
use micro_opcua.Base.Outcome.{Outcome, ok, err, fault, Prog, ◌>>=◌, ◌>>◌, done, fails, bind_outcome}
use micro_opcua.Encoding.Reader.{
  Reader, is_null, ensure_bytes, byte_at, advance, bytes_at, load, span,
}

-- The buffer holds `length` bytes; a NULL buffer holds none.
abbrev pub Spans : Option (List ℕ) → ℕ → Type 0
Spans none n = n ≡ 0
Spans (some bytes) n = n ≤ length bytes

-- What a decoder keeps: the buffer and its length, and a position that only moves forward, in bounds.
pub record Stays (r r' : Reader) : Type 0 where
  pub buffer_kept : r'.buffer ≡ r.buffer
  pub length_kept : r'.length ≡ r.length
  pub forward : r.position ≤ r'.position
  pub within : r.position ≤ r.length → r'.position ≤ r.length

abbrev pub SafeOutcome : {A : Type 0} → Reader → Outcome Reader A → Type 0
SafeOutcome r (ok a r') = Stays r r'
SafeOutcome r (err e r') = Stays r r' × (e ≢ good)
SafeOutcome r fault = ⊥

-- On every buffer the decoder stays in bounds, and an error is never MU_STATUS_GOOD.
pub record Safe {A : Type 0} (m : Prog Reader A) : Type 0 where
  pub run : (r : Reader) → Spans r.buffer r.length → SafeOutcome r (m r)

pub Stays-refl : (r : Reader) → Stays r r
Stays-refl r = record {
  buffer_kept = refl;
  length_kept = refl;
  forward = omega arith;
  within = λ h. h;
}

pub Stays-trans : (r s t : Reader) → Stays r s → Stays s t → Stays r t
Stays-trans r s t h k = ground arith

Spans-Stays : (r s : Reader) → Stays r s → Spans r.buffer r.length → Spans s.buffer s.length
Spans-Stays r s h b = rw (h.buffer_kept, h.length_kept) b

SafeOutcome-trans :
    {A : Type 0} (r s : Reader) (o : Outcome Reader A)
    → Stays r s
    → SafeOutcome s o
    → SafeOutcome r o
SafeOutcome-trans r s (ok a t) h k = Stays-trans r s t h k
SafeOutcome-trans r s (err e t) h k = (Stays-trans r s t h k.0, k.1)
SafeOutcome-trans r s fault h k = k

bind-SafeOutcome :
    {A B : Type 0} (r : Reader) (o : Outcome Reader A) (f : A → Prog Reader B)
    → Spans r.buffer r.length
    → SafeOutcome r o
    → ((a : A) → Safe (f a))
    → SafeOutcome r (((λ _. o) >>= f) r)
bind-SafeOutcome r (ok a s) f b h k =
    SafeOutcome-trans r s (f a s) h ((k a).run s (Spans-Stays r s h b))
bind-SafeOutcome r (err e s) f b h k = h
bind-SafeOutcome r fault f b h k = h

pub >>=-Safe :
    {A B : Type 0} (m : Prog Reader A) (f : A → Prog Reader B)
    → Safe m
    → ((a : A) → Safe (f a))
    → Safe (m >>= f)
>>=-Safe m f h k = record { run = λ r b. bind-SafeOutcome r (m r) f b (h.run r b) k }

pub >>-Safe :
    {A B : Type 0} (m : Prog Reader A) (k : Prog Reader B) → Safe m → Safe k → Safe (m >> k)
>>-Safe m k h hk = record { run = λ r b. bind-SafeOutcome r (m r) (λ _. k) b (h.run r b) (λ _. hk) }

pub done-Safe : {A : Type 0} (a : A) → Safe (done a)
done-Safe a = record { run = λ r b. Stays-refl r }

pub fails-Safe : {A : Type 0} (e : ℕ) → e ≢ good → Safe {A = A} (fails e)
fails-Safe e h = record { run = λ r b. (Stays-refl r, h) }

-- The status with which `ensure_bytes` refuses.
abbrev pub ensure_error : Reader → ℕ
ensure_error r =
    if not (r.status == good)
    then r.status
    else if is_null r.buffer
    then bad_internalerror
    else bad_decodingerror

ensure_error-ne-good : (r : Reader) → ensure_error r ≢ good
ensure_error-ne-good r = ground arith

-- `ensure_bytes` either finds `n` bytes ahead or fails, and then only the status may change.
abbrev pub Ensured : ℕ → Reader → Type 0
Ensured n r =
    ((ensure_bytes n r ≡ ok tt r)
      × ((bytes : List ℕ) × (r.buffer ≡ some bytes) × (r.position + n ≤ r.length)))
    ⊎ (ensure_bytes n r ≡ err (ensure_error r) (record r { status = ensure_error r }))

Ensured-of_buffer : (n : ℕ) (r : Reader) (b : Option (List ℕ)) → r.buffer ≡ b → Ensured n r
unfolding ensure_bytes
Ensured-of_buffer n r none e = inr (ground arith)
Ensured-of_buffer n r (some bytes) e = elim (Bool-cases enough) [
  | inl h ↦ inl (ground arith, (bytes, e, ground arith))
  | inr h ↦ inr (ground arith)
]
  where
    enough : Bool
    enough = r.status == good && leb r.position r.length && leb n (r.length - r.position)

pub ensure_bytes-Ensured : (n : ℕ) (r : Reader) → Ensured n r
ensure_bytes-Ensured n r = Ensured-of_buffer n r r.buffer refl

-- A getter that loads at most `n` bytes from the position on, and changes nothing.
abbrev pub Loads : {A : Type 0} → ℕ → Prog Reader A → Type 0
Loads {A} n get =
    (r : Reader) (bytes : List ℕ)
    → r.buffer ≡ some bytes
    → r.position + n ≤ length bytes
    → (a : A) × (get r ≡ ok a r)

pub byte_at-Loads : (n k : ℕ) → k + 1 ≤ n → Loads n (byte_at k)
unfolding byte_at
byte_at-Loads n k h r bytes e fits =
    let (b, eb) = get_elem?-lt bytes (r.position + k) (omega arith) in (b, ground (arith, eb))

pub bytes_at-Loads : (n : ℕ) → Loads n (bytes_at n)
unfolding bytes_at
bytes_at-Loads n r bytes e fits = (take n (drop r.position bytes), ground arith)

pub done-Loads : {A : Type 0} (n : ℕ) (a : A) → Loads n (done a)
done-Loads n a r bytes e fits = (a, refl)

pub >>=-Loads :
    {A B : Type 0} (n : ℕ) (m : Prog Reader A) (f : A → Prog Reader B)
    → Loads n m
    → ((a : A) → Loads n (f a))
    → Loads n (m >>= f)
>>=-Loads n m f h k r bytes e fits =
    let (a, ea) = h r bytes e fits in let (b, eb) = k a r bytes e fits in (b, rw ea eb)

pub Spans-length-le :
    (b : Option (List ℕ)) (n : ℕ) (bytes : List ℕ) → b ≡ some bytes → Spans b n → n ≤ length bytes
Spans-length-le none n bytes e h = cc
Spans-length-le (some xs) n bytes e h = ground arith

Ensured-SafeOutcome :
    {A B : Type 0} (n : ℕ) (get : Prog Reader A) (k : A → Prog Reader B) (r : Reader)
    → Loads n get
    → ((a : A) → Safe (k a))
    → Spans r.buffer r.length
    → Ensured n r
    → SafeOutcome r ((do ensure_bytes n; a ← get; advance n; k a) r)
unfolding advance
Ensured-SafeOutcome n get k r g h b (inl (p, (bytes, e, fits))) =
    let (a, ea) = g r bytes e (omega (arith, Spans-length-le r.buffer r.length bytes e b)) in
    let s : Reader = record r { position = r.position + n } in
    let forth : Stays r s = ground arith in
    rw (p, ea) (SafeOutcome-trans r s (k a s) forth ((h a).run s b))
Ensured-SafeOutcome n get k r g h b (inr p) = rw p (ground arith, ensure_error-ne-good r)

-- A reader that a primitive decoder has just used: its buffer is there and its position in bounds.
abbrev pub IsLoaded : Reader → Type 0
IsLoaded r = (bytes : List ℕ) × (r.buffer ≡ some bytes) × (r.position ≤ r.length)

-- The next step may rely on what the step before has checked.
pub record SafeLoaded {A : Type 0} (m : Prog Reader A) : Type 0 where
  pub run : (r : Reader) → Spans r.buffer r.length → IsLoaded r → SafeOutcome r (m r)

pub Safe-SafeLoaded : {A : Type 0} (m : Prog Reader A) → Safe m → SafeLoaded m
Safe-SafeLoaded m h = record { run = λ r b l. h.run r b }

abbrev LoadedOutcome : {A : Type 0} → Reader → Outcome Reader A → Type 0
LoadedOutcome r (ok a r') = Stays r r' × IsLoaded r'
LoadedOutcome r (err e r') = Stays r r' × (e ≢ good)
LoadedOutcome r fault = ⊥

bind-LoadedOutcome :
    {A B : Type 0} (r : Reader) (o : Outcome Reader A) (f : A → Prog Reader B)
    → Spans r.buffer r.length
    → LoadedOutcome r o
    → ((a : A) → SafeLoaded (f a))
    → SafeOutcome r (bind_outcome o f)
bind-LoadedOutcome r (ok a s) f b h k =
    SafeOutcome-trans r s (f a s) h.0 ((k a).run s (Spans-Stays r s h.0 b) h.1)
bind-LoadedOutcome r (err e s) f b h k = h
bind-LoadedOutcome r fault f b h k = h

Ensured-LoadedOutcome :
    {A B : Type 0} (n : ℕ) (get : Prog Reader A) (f : A → B) (r : Reader)
    → Loads n get
    → Spans r.buffer r.length
    → Ensured n r
    → LoadedOutcome r ((do ensure_bytes n; a ← get; advance n; done (f a)) r)
unfolding advance
Ensured-LoadedOutcome n get f r g b (inl (p, (bytes, e, fits))) =
    let (a, ea) = g r bytes e (omega (arith, Spans-length-le r.buffer r.length bytes e b)) in
    rw (p, ea) (ground arith, (bytes, e, fits))
Ensured-LoadedOutcome n get f r g b (inr p) = rw p (ground arith, ensure_error-ne-good r)

pub ensured->>=-Safe :
    {A B C : Type 0} (n : ℕ) (get : Prog Reader A) (f : A → B) (k : B → Prog Reader C)
    → Loads n get
    → ((b : B) → SafeLoaded (k b))
    → Safe ((do ensure_bytes n; a ← get; advance n; done (f a)) >>= k)
ensured->>=-Safe n get f k g h = record {
  run = λ r b.
      bind-LoadedOutcome r _ k b (Ensured-LoadedOutcome n get f r g b (ensure_bytes-Ensured n r)) h;
}

-- The shape of every primitive decoder: check, load, advance.
pub ensured-Safe :
    {A B : Type 0} (n : ℕ) (get : Prog Reader A) (k : A → Prog Reader B)
    → Loads n get
    → ((a : A) → Safe (k a))
    → Safe (do ensure_bytes n; a ← get; advance n; k a)
ensured-Safe n get k g h = record {
  run = λ r b. Ensured-SafeOutcome n get k r g h b (ensure_bytes-Ensured n r);
}
