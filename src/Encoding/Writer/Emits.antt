-- ===== src/Encoding/Writer/Emits.antt =====
-- What it means that an encoder writes an encoding, and the shape of the encoders of binary_writer.c.
use micro_opcua.Base.{
  ℕ, zero, suc, ◌+◌, ◌<◌, ◌≤◌, ◌≡◌, ◌≢◌, refl, ap, inl, inr, Bool, true, false, some, List, [], ◌∷◌,
  ◌++◌, append-nil, append_assoc, length, length-append, length-drop, set, drop, arith, leb,
  if◌then◌else◌, lt→ltb, Bool-cases, leb→le,
}
use micro_opcua.Base.Status.{good, bad_encodingerror}
use micro_opcua.Base.Outcome.{Outcome, ok, err, fault, Prog, ◌>>◌, done, bind_outcome}
use micro_opcua.Encoding.Writer.{Writer, ensure_space, put_bytes, store, advance, writer_fail}

-- A writer in good state that has written `before` and has the bytes `room` left to overwrite.
abbrev pub writer_at : List ℕ → List ℕ → Writer
writer_at before room = record {
  buffer = some (before ++ room);
  length = length (before ++ room);
  position = length before;
  status = good;
}

-- An encoder that fails for want of room has changed nothing before its position.
abbrev pub IsFull : List ℕ → List ℕ → Outcome Writer (Unit {0}) → Type 0
IsFull before room (ok a w) = ⊥
IsFull before room (err e w) =
    (e ≡ bad_encodingerror)
    × ((junk : List ℕ) × (w.buffer ≡ some (before ++ junk)) × (length junk ≡ length room))
IsFull before room fault = ⊥

-- The encoder writes `bytes` where they fit, and fails with Bad_EncodingError where they do not.
pub record Emits (m : Prog Writer (Unit {0})) (bytes : List ℕ) : Type 0 where
  pub fits :
      (before room : List ℕ)
      → length bytes ≤ length room
      → m (writer_at before room) ≡ ok tt (writer_at (before ++ bytes) (drop (length bytes) room))
  pub full :
      (before room : List ℕ)
      → length room < length bytes
      → IsFull before room (m (writer_at before room))

-- A writer that has failed refuses, and is left as it is.
pub record Sticky (m : Prog Writer (Unit {0})) : Type 0 where
  pub run : (w : Writer) → w.status ≢ good → m w ≡ err w.status w

pub >>-Sticky : (m k : Prog Writer (Unit {0})) → Sticky m → Sticky (m >> k)
>>-Sticky m k h = record { run = λ w e. rw (h.run w e) }

pub done-Emits : Emits (done tt) []
done-Emits = record {
  fits = λ before room h. rw (append-nil before);
  full = λ before room h. absurd (omega arith);
}

drop-nil : (n : ℕ) → drop {A = ℕ} n [] ≡ []
drop-nil zero = refl
drop-nil (suc n) = refl

drop-drop :
    (xs ys room : List ℕ) → drop (length ys) (drop (length xs) room) ≡ drop (length (xs ++ ys)) room
drop-drop [] ys room = refl
drop-drop (x ∷ xs) ys [] = drop-nil (length ys)
drop-drop (x ∷ xs) ys (r ∷ room) = drop-drop xs ys room

set-append :
    (before room : List ℕ) (a b : ℕ)
    → set (before ++ a ∷ room) (length before) b ≡ before ++ b ∷ room
set-append [] room a b = refl
set-append (x ∷ before) room a b = ap (◌∷◌ x) (set-append before room a b)

abbrev writer_over : List ℕ → List ℕ → ℕ → ℕ → ℕ → Writer
writer_over before room n p s = record {
  buffer = some (before ++ room);
  length = n;
  position = p;
  status = s;
}

store-append :
    (before room : List ℕ) (r b n p s : ℕ)
    → store (some (before ++ r ∷ room)) (length before) b (writer_over before (r ∷ room) n p s)
      ≡ ok tt (writer_over before (b ∷ room) n p s)
store-append before room r b n p s = rw (
  lt→ltb (length before) (length (before ++ r ∷ room))
      (omega (arith, length-append before (r ∷ room))),
  set-append before room r b,
)

put_bytes-ok :
    (xs before room : List ℕ) (k n p s : ℕ)
    → p + k ≡ length before
    → length xs ≤ length room
    → put_bytes k xs (writer_over before room n p s)
      ≡ ok tt (writer_over before (xs ++ drop (length xs) room) n p s)
unfolding put_bytes
put_bytes-ok [] before room k n p s e h = refl
put_bytes-ok (x ∷ xs) before [] k n p s e h = absurd (omega arith)
put_bytes-ok (x ∷ xs) before (r ∷ room) k n p s e h = rw (
  e,
  store-append before room r x n p s,
  ← append_assoc before (x ∷ []) room,
  put_bytes-ok xs (before ++ x ∷ []) room (k + 1) n p s
      (omega (arith, length-append before (x ∷ []))) (omega arith),
  append_assoc before (x ∷ []) (xs ++ drop (length xs) room),
)

writer_at-append :
    (before bytes room : List ℕ)
    → length bytes ≤ length room
    → writer_over before
        (bytes ++ drop (length bytes) room)
        (length (before ++ room))
        (length before + length bytes)
        good
      ≡ writer_at (before ++ bytes) (drop (length bytes) room)
writer_at-append before bytes room h =
    rw
      (
        append_assoc before bytes (drop (length bytes) room),
        length-append before bytes,
        length-append before room,
        length-append before (bytes ++ drop (length bytes) room),
        length-append bytes (drop (length bytes) room),
        length-drop (length bytes) room,
      )
      (ap
        (λ n.
          writer_over before (bytes ++ drop (length bytes) room) n (length before + length bytes)
            good)
        (omega arith))

pub put_bytes-advance :
    (bytes before room : List ℕ)
    → length bytes ≤ length room
    → (do put_bytes 0 bytes; advance (length bytes)) (writer_at before room)
      ≡ ok tt (writer_at (before ++ bytes) (drop (length bytes) room))
unfolding advance
put_bytes-advance bytes before room h = rw (
  put_bytes-ok bytes before room 0 (length (before ++ room)) (length before) good (omega arith) h,
  writer_at-append before bytes room h,
)

ensure_space-ok :
    (n : ℕ) (before room : List ℕ)
    → n ≤ length room
    → ensure_space n (writer_at before room) ≡ ok tt (writer_at before room)
unfolding ensure_space
ensure_space-ok n before room h = ground (arith, length-append before room)

ensure_space-full :
    (n : ℕ) (before room : List ℕ)
    → length room < n
    → ensure_space n (writer_at before room) ≡ writer_fail bad_encodingerror (writer_at before room)
unfolding ensure_space
ensure_space-full n before room h = ground (arith, length-append before room)

ensure_space-Sticky : (n : ℕ) → Sticky (ensure_space n)
unfolding ensure_space
ensure_space-Sticky n = record { run = λ w e. ground arith }

-- The shape of every primitive encoder: check, store, advance.
pub ensured-Emits :
    (n : ℕ) (bytes : List ℕ)
    → length bytes ≡ n
    → Emits (do ensure_space n; put_bytes 0 bytes; advance n) bytes
ensured-Emits n bytes e = record {
  fits = λ before room h.
      rw (ensure_space-ok n before room (omega arith), ← e, put_bytes-advance bytes before room h);
  full = λ before room h.
      rw (ensure_space-full n before room (omega arith)) (refl, (room, refl, refl));
}

pub ensured-Sticky :
    (n : ℕ) (bytes : List ℕ) → Sticky (do ensure_space n; put_bytes 0 bytes; advance n)
ensured-Sticky n bytes = >>-Sticky _ _ (ensure_space-Sticky n)

-- One encoder after another.
then-IsFull :
    (before bytes room : List ℕ) (o : Outcome Writer (Unit {0}))
    → length bytes ≤ length room
    → IsFull (before ++ bytes) (drop (length bytes) room) o
    → IsFull before room o
then-IsFull before bytes room (ok a w) h f = f
then-IsFull before bytes room (err e w) h (e', (junk, eb, el)) = (
  e',
  (
    bytes ++ junk,
    rw (← append_assoc before bytes junk) eb,
    omega (arith, length-append bytes junk, length-drop (length bytes) room),
  ),
)
then-IsFull before bytes room fault h f = f

bind-IsFull :
    (before room : List ℕ) (o : Outcome Writer (Unit {0})) (k : Prog Writer (Unit {0}))
    → IsFull before room o
    → IsFull before room (bind_outcome o (λ _. k))
bind-IsFull before room (ok a w) k f = absurd f
bind-IsFull before room (err e w) k f = f
bind-IsFull before room fault k f = f

>>-IsFull :
    (m k : Prog Writer (Unit {0})) (xs ys : List ℕ)
    → Emits m xs
    → Emits k ys
    → (before room : List ℕ) → length room < length (xs ++ ys)
    → IsFull before room ((m >> k) (writer_at before room))
>>-IsFull m k xs ys hm hk before room h = elim (Bool-cases (leb (length xs) (length room))) [
  | inl e ↦ rw (hm.fits before room (leb→le _ _ e)) (
      then-IsFull before xs room _ (leb→le _ _ e) (
        hk.full (before ++ xs) (drop (length xs) room)
          (omega (arith, leb→le _ _ e, length-append xs ys, length-drop (length xs) room))))
  | inr e ↦ bind-IsFull before room _ k (hm.full before room (ground arith))
]

pub >>-Emits :
    (m k : Prog Writer (Unit {0})) (xs ys : List ℕ)
    → Emits m xs
    → Emits k ys
    → Emits (m >> k) (xs ++ ys)
>>-Emits m k xs ys hm hk = record {
  fits = λ before room h. rw (
    hm.fits before room (omega (arith, length-append xs ys)),
    hk.fits (before ++ xs) (drop (length xs) room)
        (omega (arith, length-append xs ys, length-drop (length xs) room)),
    append_assoc before xs ys,
    drop-drop xs ys room,
  );
  full = >>-IsFull m k xs ys hm hk;
}

pub if-Emits :
    (b : Bool) (m k : Prog Writer (Unit {0})) (xs ys : List ℕ)
    → Emits m xs
    → Emits k ys
    → Emits (if b then m else k) (if b then xs else ys)
if-Emits true m k xs ys h h' = h
if-Emits false m k xs ys h h' = h'

pub if-Sticky :
    (b : Bool) (m k : Prog Writer (Unit {0})) → Sticky m → Sticky k → Sticky (if b then m else k)
if-Sticky true m k h h' = h
if-Sticky false m k h h' = h'
