-- ===== src/Encoder/Text/Hex.antt =====
-- What the text encoder prints of a buffer, and that it can be read back.
use oqs_provider.Base.{
  ℕ, suc, ◌+◌, ◌-◌, ◌*◌, ◌/◌, ◌%◌, ◌<◌, ◌==◌, ◌≡◌, refl, sym, ap, ◌∙◌, Bool, true, false, ◌||◌,
  Option, some, List, [], ◌∷◌, ◌++◌, append_assoc, append-nil, if◌then◌else◌, ltb, length, arith,
}
use oqs_provider.Run.{ok, ◌>>=◌}
use oqs_provider.Memory.{Bytes}
use oqs_provider.Encoder.Text.{
  newline, indent, hex_digit, byte_text, width, start_line, print_bytes, print_labeled_buf,
}

-- A printer that never fails, with the text so far.
abbrev pub append : List ℕ → List ℕ → Option (List ℕ)
append text before = some (before ++ text)

-- The value of a digit, and what is skipped: new lines, spaces and colons.
abbrev pub digit_value : ℕ → ℕ
digit_value c = if ltb c 58 then c - 48 else c - 87

abbrev pub is_separator : ℕ → Bool
is_separator c = c == 10 || (c == 32 || c == 58)

-- The bytes that pairs of digits stand for.
unfoldable pub read_hex : List ℕ → Bytes
read_hex [] = []
read_hex (c ∷ []) = []
read_hex (c ∷ d ∷ rest) =
    let later = read_hex (d ∷ rest) in
    let next = read_hex rest in
    if is_separator c then later else (16 * digit_value c + digit_value d) ∷ next

abbrev line_start : ℕ → List ℕ
line_start i = if i % width == 0 then (if ltb 0 i then newline else []) ++ indent else []

unfoldable bytes_text : (buflen i : ℕ) → Bytes → List ℕ
bytes_text buflen i [] = []
bytes_text buflen i (b ∷ bs) =
    line_start i ++ (byte_text b (i == buflen - 1) ++ bytes_text buflen (suc i) bs)

start_line-append : (i : ℕ) (w : List ℕ) → start_line append i w ≡ ok (w ++ line_start i)
start_line-append i w = go (i % width == 0) (ltb 0 i)
  where
    go :
        (starts later : Bool)
        → (if starts
            then ((if later then ok (w ++ newline) else ok w) >>= λ w'. ok (w' ++ indent))
            else ok w)
          ≡ ok (w ++ (if starts then (if later then newline else []) ++ indent else []))
    go true true = ap ok (append_assoc w newline indent)
    go true false = refl
    go false later = ap ok (sym (append-nil w))

print_bytes-append :
    (buflen i : ℕ) (bs : Bytes) (w : List ℕ)
    → print_bytes append buflen i bs w ≡ ok (w ++ bytes_text buflen i bs)
unfolding print_bytes bytes_text
print_bytes-append buflen i [] w = ap ok (sym (append-nil w))
print_bytes-append buflen i (b ∷ bs) w = rw (start_line-append i w) (
    print_bytes-append buflen (suc i) bs ((w ++ line_start i) ++ byte_text b (i == buflen - 1))
    ∙ ap ok (
        append_assoc (w ++ line_start i) (byte_text b (i == buflen - 1)) _
        ∙ append_assoc w (line_start i) _))

skip_separator :
    (c : ℕ) (text : List ℕ) → is_separator c ≡ true → read_hex (c ∷ text) ≡ read_hex text
unfolding read_hex
skip_separator c [] e = refl
skip_separator c (d ∷ rest) e = rw (e) refl

digit-separator : (n : ℕ) → n < 16 → is_separator (hex_digit n) ≡ false
digit-separator n h = ground (arith, h)

digit-value : (n : ℕ) → n < 16 → digit_value (hex_digit n) ≡ n
digit-value n h = ground (arith, h)

read_byte :
    (b : ℕ) (text : List ℕ)
    → b < 256
    → read_hex (hex_digit (b / 16) ∷ hex_digit (b % 16) ∷ text) ≡ b ∷ read_hex text
unfolding read_hex
read_byte b text h =
    rw
      (
        digit-separator (b / 16) (omega (arith, h)),
        digit-value (b / 16) (omega (arith, h)),
        digit-value (b % 16) (omega (arith, h)),
      )
      (ap (λ x. x ∷ read_hex text) (omega (arith, h)))

read_indent : (text : List ℕ) → read_hex (indent ++ text) ≡ read_hex text
read_indent text =
    skip_separator 32 _ refl
    ∙ skip_separator 32 _ refl
    ∙ skip_separator 32 _ refl
    ∙ skip_separator 32 text refl

read_line_start : (i : ℕ) (text : List ℕ) → read_hex (line_start i ++ text) ≡ read_hex text
read_line_start i text = go (i % width == 0) (ltb 0 i)
  where
    go :
        (starts later : Bool)
        → read_hex ((if starts then (if later then newline else []) ++ indent else []) ++ text)
          ≡ read_hex text
    go true true = skip_separator 10 _ refl ∙ read_indent text
    go true false = read_indent text
    go false later = refl

abbrev pub AllBytes : Bytes → Type 0
AllBytes [] = Unit
AllBytes (b ∷ bs) = (b < 256) × AllBytes bs

read_byte_text :
    (b : ℕ) (last : Bool) (text : List ℕ)
    → b < 256
    → read_hex (byte_text b last ++ text) ≡ b ∷ read_hex text
read_byte_text b true text h = read_byte b text h
read_byte_text b false text h = read_byte b _ h ∙ ap (◌∷◌ b) (skip_separator 58 text refl)

read_bytes_text :
    (buflen i : ℕ) (bs : Bytes) → AllBytes bs → read_hex (bytes_text buflen i bs ++ newline) ≡ bs
unfolding bytes_text read_hex
read_bytes_text buflen i [] all = refl
read_bytes_text buflen i (b ∷ bs) (h, all) =
    ap read_hex (append_assoc (line_start i) _ newline)
    ∙ read_line_start i _
    ∙ ap read_hex (append_assoc (byte_text b (i == buflen - 1)) _ newline)
    ∙ read_byte_text b (i == buflen - 1) _ h
    ∙ ap (◌∷◌ b) (read_bytes_text buflen (suc i) bs all)

-- Printing a buffer under a label, where printing does not fail, appends the line with the label and a text in
-- which the pairs of hexadecimal digits, without new lines, spaces and colons, are the bytes of the buffer.
pub read_hex-print_labeled_buf :
    (label before : List ℕ) (buf : Bytes)
    → AllBytes buf
    → (text : List ℕ) × (print_labeled_buf append label buf before
        ≡ ok (before ++ ((label ++ newline) ++ text)))
      × (read_hex text ≡ buf)
unfolding print_labeled_buf
read_hex-print_labeled_buf label before buf all = (
  bytes_text (length buf) 0 buf ++ newline,
  rw (print_bytes-append (length buf) 0 buf (before ++ (label ++ newline))) (
      ap ok (
        append_assoc (before ++ (label ++ newline)) (bytes_text (length buf) 0 buf) newline
        ∙ append_assoc before (label ++ newline) _)),
  read_bytes_text (length buf) 0 buf all,
)
