-- ===== src/Encoder/Text.antt =====
-- oqsprov/oqs_encode_key2any.c: the text encoder. Texts are lists of the codes of their characters, and what
-- prints them is a parameter: it gives its state, or fails where BIO_printf gives 0 or less.
pub mod Hex
use Prim.Native.String.{String}
use oqs_provider.Base.{
  ℕ, suc, ◌+◌, ◌-◌, ◌*◌, ◌/◌, ◌%◌, ◌^◌, ◌==◌, Bool, true, false, not, ◌||◌, Option, none, some,
  List, [], ◌∷◌, ◌++◌, if◌then◌else◌, ltb, length, get_elem?, codes,
}
use oqs_provider.Run.{
  Run, ok, err, silent, invalid_key, passed_null_parameter, passed_invalid_argument,
  not_a_private_key, not_a_public_key, or_err, ◌>>=◌, ◌>>◌,
}
use oqs_provider.Memory.{Bytes, Slot, size_of_uint32, decode_uint32, int_to_size}
use oqs_provider.Extern.{EvpNid}
use oqs_provider.Key.{
  OqsxKey, KeyType, sig, kem, ecp_hyb_kem, ecx_hyb_kem, hyb_sig, other, deref, read_slot,
}
use oqs_provider.KeyMgmt.{Selection}
use oqs_provider.Bio.{Upcalls, OutBio, bio_new_from_core_bio, bio_free_out}

abbrev pub newline : List ℕ
newline = 10 ∷ []

abbrev pub indent : List ℕ
indent = 32 ∷ 32 ∷ 32 ∷ 32 ∷ []

abbrev pub hex_digit : ℕ → ℕ
hex_digit n = if ltb n 10 then 48 + n else 87 + n

-- `%02x` of a byte, and the colon behind all but the last.
abbrev pub byte_text : ℕ → (last : Bool) → List ℕ
byte_text b last = hex_digit (b / 16) ∷ hex_digit (b % 16) ∷ (if last then [] else 58 ∷ [])

-- LABELED_BUF_PRINT_WIDTH
abbrev pub width : ℕ
width = 15

module _ {W : Type 0} (printf : List ℕ → W → Option W) where
  abbrev print : List ℕ → W → Run W
  print text w = or_err silent (printf text w)

  -- A new line before every `width` bytes.
  abbrev start_line : (i : ℕ) → W → Run W
  start_line i w =
      if i % width == 0
      then (do w' ← if ltb 0 i then print newline w else ok w; print indent w')
      else ok w

  -- The loop from byte `i` on.
  unfoldable pub print_bytes : (buflen i : ℕ) → Bytes → W → Run W
  print_bytes buflen i [] w = ok w
  print_bytes buflen i (b ∷ bs) w = do
    w1 ← start_line i w
    w2 ← print (byte_text b (i == buflen - 1)) w1
    print_bytes buflen (suc i) bs w2

  unfoldable pub print_labeled_buf : (label : List ℕ) → Bytes → W → Run W
  unfolding print_bytes
  print_labeled_buf label buf w = do
    w1 ← print (label ++ newline) w
    w2 ← print_bytes (length buf) 0 buf w1
    print newline w2

  -- The kinds with one key, and those with two.
  abbrev heading : KeyType → (one two : List ℕ) → Run (List ℕ)
  heading sig one two = ok one
  heading kem one two = ok one
  heading ecp_hyb_kem one two = ok two
  heading ecx_hyb_kem one two = ok two
  heading hyb_sig one two = ok two
  heading other one two = err invalid_key

  module _ {Pkey : Type 0} (nid2sn : EvpNid → String) (key : OqsxKey Pkey) where
    abbrev title : (one two : String) → W → Run W
    title one two w = do
      what ← heading key.keytype (codes one) (codes two)
      print (codes key.tls_name ++ what ++ newline) w

    unfoldable pub print_title : Selection → W → Run W
    print_title selection w =
        if selection.private_key
        then elim key.privkey [
          | none ↦ err not_a_private_key
          | some buf ↦ title " private key:" " hybrid private key:" w
        ]
        else (if selection.public_key
            then elim key.pubkey [
              | none ↦ err not_a_public_key
              | some buf ↦ title " public key:" " hybrid public key:" w
            ]
            else ok w)

    -- The components of one of the two buffers. Lengths are subtracted modulo 2 ^ 64.
    unfoldable pub print_material : Option Bytes → List Slot → (len : ℕ) → W → Run W
    unfolding print_labeled_buf
    print_material none slots len w = ok w
    print_material (some buf) slots len w =
        if ltb 1 key.numkeys
        then (do
          info ← deref key.evp_info
          n ← decode_uint32 buf
          first ← read_slot (some buf) (get_elem? slots 0) (int_to_size n)
          w' ← print_labeled_buf (codes (nid2sn info.nid) ++ codes " key material:") first w
          rest ←
              read_slot (some buf) (get_elem? slots (key.numkeys - 1))
                ((len + 2 ^ 65 - int_to_size n - size_of_uint32) % 2 ^ 64)
          print_labeled_buf (codes "PQ key material:") rest w')
        else (do
          whole ← read_slot (some buf) (get_elem? slots (key.numkeys - 1)) len
          print_labeled_buf (codes "PQ key material:") whole w)

    -- oqsx_to_text
    unfoldable pub to_text : Selection → W → Run W
    unfolding print_title print_material
    to_text selection w = do
      w1 ← print_title selection w
      w2 ←
          if selection.private_key
          then print_material key.privkey key.comp_privkey key.privkeylen w1
          else ok w1
      if selection.public_key
          then print_material key.pubkey key.comp_pubkey key.pubkeylen w2
          else ok w2

-- What the text encoder leaves of the core, and what it printed through the BIO from `start` on.
pub record Printed (W T : Type 0) : Type 0 where
  pub result : Run T
  pub core : W

module _ {W H T : Type 0} (u : Upcalls W H) (bio_method bio_made : Bool)
    (printf : List ℕ → T → Option T) where
  abbrev print_key :
      {Pkey : Type 0}
      → (EvpNid → String)
      → Option (OqsxKey Pkey)
      → Selection
      → Option (OutBio H)
      → T
      → W
      → Printed W T
  print_key nid2sn key selection none start w = record {
    result = err silent;
    core = bio_free_out u none w;
  }
  print_key nid2sn none selection (some out) start w = record {
    result = err passed_null_parameter;
    core = bio_free_out u (some out) w;
  }
  print_key nid2sn (some key) selection (some out) start w = record {
    result = to_text printf nid2sn key selection start;
    core = bio_free_out u (some out) w;
  }

  -- key2text_encode
  unfoldable pub key2text_encode :
      {Pkey : Type 0}
      → (EvpNid → String)
      → Option (OqsxKey Pkey)
      → Selection
      → H
      → T
      → W
      → Printed W T
  unfolding to_text
  key2text_encode nid2sn key selection cout start w =
      let out = bio_new_from_core_bio u bio_method bio_made cout w in
      print_key nid2sn key selection out.0 start out.1

  -- The `_encode` of MAKE_TEXT_ENCODER
  unfoldable pub text_encode :
      {Pkey : Type 0}
      → (EvpNid → String)
      → Option (OqsxKey Pkey)
      → (key_abstract : Bool) → Selection
      → H
      → T
      → W
      → Printed W T
  unfolding key2text_encode
  text_encode nid2sn key key_abstract selection cout start w =
      if key_abstract
      then record { result = err passed_invalid_argument; core = w }
      else key2text_encode nid2sn key selection cout start w
