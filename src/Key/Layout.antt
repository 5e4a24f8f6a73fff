-- ===== src/Key/Layout.antt =====
-- The buffers of a hybrid key: a header with the length of the classical key, that key, liboqs' key
-- and what is left, which is zero in a fresh buffer.
use oqs_provider.Base.{
  ℕ, zero, suc, ◌+◌, ◌%◌, ◌^◌, ◌<◌, ◌≤◌, ◌≡◌, refl, sym, ap, ◌∙◌, [], ◌∷◌, ◌++◌, append_assoc,
  append-nil, arith, subst, length, replicate, drop, length-append, length-replicate, some,
}
use oqs_provider.Run.{ok}
use oqs_provider.Memory.{
  Bytes, at_offset, size_of_uint32, read, write, encode_uint32, decode_uint32, int_to_size,
}
use oqs_provider.Memory.Laws.{
  write_behind, read_at, write_at, decode-encode, length-encode_uint32, int_to_size_small,
}
use oqs_provider.Key.{components}

abbrev pub zeros : ℕ → Bytes
zeros n = replicate n 0

abbrev pub framed : Bytes → Bytes → Bytes
framed classical rest = encode_uint32 (length classical) ++ (classical ++ rest)

pub replicate-add : (n m : ℕ) → zeros (n + m) ≡ zeros n ++ zeros m
replicate-add zero m = ap zeros (omega arith)
replicate-add (suc n) m = ap zeros (suc_add n m) ∙ ap (◌∷◌ 0) (replicate-add n m)
  where
    suc_add : (n m : ℕ) → suc n + m ≡ suc (n + m)
    suc_add n m = omega arith

-- A fresh buffer that is written as a whole.
pub write_all : (bs : Bytes) (n : ℕ) → n ≡ length bs → write (zeros n) 0 bs ≡ ok bs
write_all bs n e = rw (← append-nil (zeros n)) (
    rw
      (write_at [] (zeros n) [] bs 0 refl (sym e ∙ sym (length-replicate {A = ℕ} n 0)), append-nil))

module _ (c : Bytes) where
  -- A classical key goes behind the room for the header of a fresh buffer.
  pub write_classical :
      (size k : ℕ)
      → size ≡ size_of_uint32 + (length c + k)
      → write (zeros size) size_of_uint32 c ≡ ok (zeros size_of_uint32 ++ (c ++ zeros k))
  write_classical size k e =
      rw (e, replicate-add size_of_uint32 (length c + k), replicate-add (length c) k)
        (write_at (zeros size_of_uint32) (zeros (length c)) (zeros k) c size_of_uint32 refl
          (sym (length-replicate (length c) 0)))

  pub write_header :
      (rest : Bytes)
      → write (zeros size_of_uint32 ++ (c ++ rest)) 0 (encode_uint32 (length c))
        ≡ ok (framed c rest)
  write_header rest =
      write_at [] (zeros size_of_uint32) (c ++ rest) (encode_uint32 (length c)) 0 refl
        (length-encode_uint32 (length c))

  length-header : length (encode_uint32 (length c) ++ c) ≡ length c + size_of_uint32
  length-header =
      omega (arith, length-append (encode_uint32 (length c)) c, length-encode_uint32 (length c))

  pub length-framed :
      (rest : Bytes) → length (framed c rest) ≡ size_of_uint32 + (length c + length rest)
  length-framed rest = omega (
    arith,
    length-append (encode_uint32 (length c)) (c ++ rest),
    length-encode_uint32 (length c),
    length-append c rest,
  )

  module _ (small : length c < 2 ^ 31) where
    pub decode-framed : (rest : Bytes) → decode_uint32 (framed c rest) ≡ ok (length c)
    decode-framed rest = decode-encode (length c) (c ++ rest) ∙ ap ok (omega arith)

    pub offset_small :
        (int_to_size (length c) + size_of_uint32) % 2 ^ 64 ≡ length c + size_of_uint32
    offset_small = rw (int_to_size_small (length c) small) (omega arith)

    pub components-framed :
        (rest : Bytes)
        → components (some (framed c rest))
          ≡ ok (at_offset size_of_uint32 ∷ at_offset (length c + size_of_uint32) ∷ [])
    components-framed rest = rw (decode-framed rest, offset_small)

  -- The first component is the classical key.
  pub read_first :
      (rest : Bytes) (n : ℕ) → n ≡ length c → read (framed c rest) size_of_uint32 n ≡ ok c
  read_first rest n e =
      read_at (encode_uint32 (length c)) c rest size_of_uint32 n
        (sym (length-encode_uint32 (length c))) e

  -- The second one is what stands behind it.
  pub read_second :
      (o rest : Bytes) (n : ℕ)
      → n ≡ length o
      → read (framed c (o ++ rest)) (length c + size_of_uint32) n ≡ ok o
  read_second o rest n e =
      rw (← append_assoc (encode_uint32 (length c)) c (o ++ rest))
        (read_at (encode_uint32 (length c) ++ c) o rest _ n (sym length-header) e)

  pub write_second :
      (o old rest : Bytes)
      → length o ≡ length old
      → write (framed c (old ++ rest)) (length c + size_of_uint32) o ≡ ok (framed c (o ++ rest))
  write_second o old rest e =
      rw
        (
          ← append_assoc (encode_uint32 (length c)) c (old ++ rest),
          ← append_assoc (encode_uint32 (length c)) c (o ++ rest),
        )
        (write_at (encode_uint32 (length c) ++ c) old rest o _ (sym length-header) e)

  pub write_second_fresh :
      (o : Bytes) (size k : ℕ)
      → size ≡ length o + k
      → write (framed c (zeros size)) (length c + size_of_uint32) o ≡ ok (framed c (o ++ zeros k))
  write_second_fresh o size k e =
      rw (e, replicate-add (length o) k)
        (write_second o (zeros (length o)) (zeros k) (sym (length-replicate (length o) 0)))

  -- The front of a framed buffer, up to the end of liboqs' key.
  pub read_front :
      (o rest : Bytes) (n : ℕ)
      → n ≡ size_of_uint32 + (length c + length o)
      → read (framed c (o ++ rest)) 0 n ≡ ok (framed c o)
  read_front o rest n e =
      rw (← append_assoc c o rest, ← append_assoc (encode_uint32 (length c)) (c ++ o) rest)
        (read_at [] (framed c o) rest 0 n refl (e ∙ sym (length-framed o)))

  -- The same with an offset that is computed in another order, and over the front of any rest.
  pub read_behind_first :
      (o rest : Bytes) (off n : ℕ)
      → off ≡ size_of_uint32 + length c
      → n ≡ length o
      → read (framed c (o ++ rest)) off n ≡ ok o
  read_behind_first o rest off n e =
      subst (λ a. n ≡ length o → read (framed c (o ++ rest)) a n ≡ ok o) (swapped e)
        (read_second o rest n)
    where
      swapped : off ≡ size_of_uint32 + length c → length c + size_of_uint32 ≡ off
      swapped e = omega arith

  pub write_behind_first :
      (o rest : Bytes) (off : ℕ)
      → off ≡ size_of_uint32 + length c
      → length o ≤ length rest
      → write (framed c rest) off o ≡ ok (framed c (o ++ drop (length o) rest))
  write_behind_first o rest off e fits =
      rw
        (
          ← append_assoc (encode_uint32 (length c)) c rest,
          ← append_assoc (encode_uint32 (length c)) c (o ++ drop (length o) rest),
        )
        (write_behind (encode_uint32 (length c) ++ c) rest o off (omega (arith, length-header))
          fits)

  -- Another classical key of the same length over the first component.
  pub write_first :
      (c' rest : Bytes)
      → length c' ≡ length c
      → write (framed c rest) size_of_uint32 c' ≡ ok (framed c' rest)
  write_first c' rest e = rw (← e) (
      write_at (encode_uint32 (length c')) c rest c' size_of_uint32
        (sym (length-encode_uint32 (length c'))) e)
