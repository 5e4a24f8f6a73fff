-- ===== src/Memory/Laws.antt =====
-- Reading and writing a buffer that is known in parts, and the length header of a hybrid key.
use oqs_provider.Base.{
  ◌∙◌, drop_all, ℕ, ◌+◌, ◌^◌, ◌%◌, ◌≤◌, ◌<◌, ◌≡◌, refl, ap, [], ◌++◌, append_assoc, arith, length,
  take, drop, length-append, length-take, length-drop, take-append, drop-append, leb, true, false,
  Bool-cases, leb→le, inl, inr, subst, take-append-drop, append-nil,
}
use oqs_provider.Run.{ok, ub, Post}
use oqs_provider.Memory.{
  Bytes, read, write, encode_uint32, decode_uint32, int_to_size, size_of_uint32,
}

pub le→leb : (a b : ℕ) → a ≤ b → leb a b ≡ true
le→leb a b h = ground arith

pub lt→leb : (a b : ℕ) → b < a → leb a b ≡ false
lt→leb a b h = ground arith

-- The bytes `ys` that stand at offset `off`.
pub read_at :
    (xs ys zs : Bytes) (off n : ℕ)
    → off ≡ length xs
    → n ≡ length ys
    → read (xs ++ (ys ++ zs)) off n ≡ ok ys
unfolding read
read_at xs ys zs off n ho hn = rw (ho, hn) (rw (fits, drop-append, take-append))
  where
    fits : leb (length xs + length ys) (length (xs ++ (ys ++ zs))) ≡ true
    fits = le→leb _ _ (omega (arith, length-append xs (ys ++ zs), length-append ys zs))

pub write_at :
    (xs ys zs bs : Bytes) (off : ℕ)
    → off ≡ length xs
    → length bs ≡ length ys
    → write (xs ++ (ys ++ zs)) off bs ≡ ok (xs ++ (bs ++ zs))
unfolding write
write_at xs ys zs bs off ho hb =
    rw (ho, hb, fits, take-append, ← append_assoc xs ys zs, ← length-append xs ys, drop-append)
  where
    fits : leb (length xs + length ys) (length (xs ++ (ys ++ zs))) ≡ true
    fits = le→leb _ _ (omega (arith, length-append xs (ys ++ zs), length-append ys zs))

-- An access beyond the end.
pub read_outside : (buf : Bytes) (off n : ℕ) → length buf < off + n → read buf off n ≡ ub
unfolding read
read_outside buf off n h = rw (lt→leb _ _ h)

pub write_outside :
    (buf bs : Bytes) (off : ℕ) → length buf < off + length bs → write buf off bs ≡ ub
unfolding write
write_outside buf bs off h = rw (lt→leb _ _ h)

pub decode-encode :
    (n : ℕ) (rest : Bytes) → decode_uint32 (encode_uint32 n ++ rest) ≡ ok (n % 2 ^ 32)
unfolding encode_uint32 decode_uint32
decode-encode n rest = ap ok (omega arith)

pub length-encode_uint32 : (n : ℕ) → length (encode_uint32 n) ≡ size_of_uint32
unfolding encode_uint32
length-encode_uint32 n = refl

pub int_to_size_small : (n : ℕ) → n < 2 ^ 31 → int_to_size n ≡ n
unfolding int_to_size
int_to_size_small n h = ground arith

pub le-int_to_size : (n : ℕ) → n ≤ int_to_size n
unfolding int_to_size
le-int_to_size n = ground arith

-- What is written over the front of a buffer, and over the front of what stands behind `xs`.
pub write_behind :
    (xs buf bs : Bytes) (off : ℕ)
    → off ≡ length xs
    → length bs ≤ length buf
    → write (xs ++ buf) off bs ≡ ok (xs ++ (bs ++ drop (length bs) buf))
write_behind xs buf bs off e fits =
    subst (λ b. write (xs ++ b) off bs ≡ ok (xs ++ (bs ++ drop (length bs) buf)))
      (take-append-drop (length bs) buf)
      (write_at xs (take (length bs) buf) (drop (length bs) buf) bs off e
        (omega (arith, length-take (length bs) buf)))

pub write_front :
    (buf bs : Bytes) → length bs ≤ length buf → write buf 0 bs ≡ ok (bs ++ drop (length bs) buf)
write_front buf bs fits = write_behind [] buf bs 0 refl fits

-- The bytes behind `xs` up to the end.
pub read_rest :
    (xs ys : Bytes) (off n : ℕ) → off ≡ length xs → n ≡ length ys → read (xs ++ ys) off n ≡ ok ys
read_rest xs ys off n ho hn = rw (← append-nil ys) (rw (read_at xs ys [] off n ho hn, append-nil))

-- The start of what stands behind `xs`.
pub read_within :
    (xs ys : Bytes) (off n : ℕ)
    → off ≡ length xs
    → n ≤ length ys
    → read (xs ++ ys) off n ≡ ok (take n ys)
unfolding read
read_within xs ys off n ho fits = rw (ho) (rw (inside, drop-append))
  where
    inside : leb (length xs + n) (length (xs ++ ys)) ≡ true
    inside = le→leb _ _ (omega (arith, length-append xs ys))

-- Writing keeps the size of a buffer.
pub length-write : (buf bs : Bytes) (off : ℕ) → Post (λ b. length b ≡ length buf) (write buf off bs)
unfolding write
length-write buf bs off = elim (Bool-cases (leb (off + length bs) (length buf))) [
  | inr e ↦ rw (e) tt
  | inl e ↦ rw (e) (
      omega (
        arith,
        leb→le _ _ e,
        length-append (take off buf) (bs ++ drop (off + length bs) buf),
        length-append bs (drop (off + length bs) buf),
        length-take off buf,
        length-drop (off + length bs) buf,
      ))
]

pub write_inside :
    (buf bs : Bytes) (off : ℕ)
    → off + length bs ≤ length buf
    → write buf off bs ≡ ok (take off buf ++ (bs ++ drop (off + length bs) buf))
unfolding write
write_inside buf bs off fits = rw (le→leb _ _ fits)

-- A header over the front of a buffer that was cut.
pub write_over_front :
    (buf bs rest : Bytes) (n : ℕ)
    → length bs ≡ n
    → n ≤ length buf
    → write (take n buf ++ rest) 0 bs ≡ ok (bs ++ rest)
write_over_front buf bs rest n e fits =
    write_at [] (take n buf) rest bs 0 refl (omega (arith, length-take n buf))

-- What is written up to the end of a buffer.
pub write_to_end :
    (buf bs : Bytes) (off : ℕ)
    → off + length bs ≡ length buf
    → write buf off bs ≡ ok (take off buf ++ bs)
write_to_end buf bs off e =
    write_inside buf bs off (omega (arith, e)) ∙ rw (e, drop_all buf, append-nil bs) refl
