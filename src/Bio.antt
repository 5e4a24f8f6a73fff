-- ===== src/Bio.antt =====
-- oqsprov/oqsprov_bio.c: the core's BIO functions, from its dispatch table to the calls of them, and
-- the BIO that stands for one of the core's. `W` is the core's state and `H` its BIO handles; a BIO
-- without a handle, as it is made, has the null one.
pub mod Balance
use Prim.Native.String.{String}
use oqs_provider.Base.{
  ℕ, Bool, true, false, ◌&&◌, not, Option, none, some, List, [], ◌∷◌, if◌then◌else◌,
}
use oqs_provider.Memory.{Bytes, is_null}

-- An `int` or `long` that is returned: `none` for -1.
abbrev pub CInt : Type 0
CInt = Option ℕ

-- The static function pointers; what is written through a pointer is part of the result.
pub record Upcalls (W H : Type 0) : Type 0 where
  pub new_file : Option (String → String → W → Option H × W)
  pub new_membuf : Option (Bytes → ℕ → W → Option H × W)
  pub read_ex : Option (Option H → ℕ → W → Option Bytes × W)
  pub write_ex : Option (Option H → Bytes → W → Option ℕ × W)
  pub gets : Option (Option H → ℕ → W → (CInt × Bytes) × W)
  pub puts : Option (Option H → Bytes → W → CInt × W)
  pub ctrl : Option (Option H → ℕ → ℕ → W → CInt × W)
  pub up_ref : Option (Option H → W → Bool × W)
  pub free : Option (Option H → W → Bool × W)
  pub vprintf : Option (Option H → Bytes → W → CInt × W)

-- An entry of the core's dispatch table; `unknown` is any other function.
pub data Entry (W H : Type 0) : Type 0 where
  bio_new_file : (String → String → W → Option H × W) → Entry W H
  bio_new_membuf : (Bytes → ℕ → W → Option H × W) → Entry W H
  bio_read_ex : (Option H → ℕ → W → Option Bytes × W) → Entry W H
  bio_write_ex : (Option H → Bytes → W → Option ℕ × W) → Entry W H
  bio_gets : (Option H → ℕ → W → (CInt × Bytes) × W) → Entry W H
  bio_puts : (Option H → Bytes → W → CInt × W) → Entry W H
  bio_ctrl : (Option H → ℕ → ℕ → W → CInt × W) → Entry W H
  bio_up_ref : (Option H → W → Bool × W) → Entry W H
  bio_free : (Option H → W → Bool × W) → Entry W H
  bio_vprintf : (Option H → Bytes → W → CInt × W) → Entry W H
  unknown : ℕ → Entry W H

-- `if (c_f == NULL) c_f = f`
abbrev pub or_keep {ℓ} : {A : Type ℓ} → Option A → A → Option A
or_keep (some old) new = some old
or_keep none new = some new

-- A BIO of the method that the provider makes: its handle, and whether it is initialised.
pub record OutBio (H : Type 0) : Type 0 where
  pub handle : Option H
  pub init : Bool

-- bio_core_new
abbrev pub bio_core_new : {H : Type 0} → OutBio H
bio_core_new = record { handle = none; init = true }

module _ {W H : Type 0} where
  -- The static pointers at load time.
  abbrev pub no_upcalls : Upcalls W H
  no_upcalls = record {
    new_file = none;
    new_membuf = none;
    read_ex = none;
    write_ex = none;
    gets = none;
    puts = none;
    ctrl = none;
    up_ref = none;
    free = none;
    vprintf = none;
  }

  -- One round of the loop.
  unfoldable pub install : Upcalls W H → Entry W H → Upcalls W H
  install u (bio_new_file f) = record u { new_file = or_keep u.new_file f }
  install u (bio_new_membuf f) = record u { new_membuf = or_keep u.new_membuf f }
  install u (bio_read_ex f) = record u { read_ex = or_keep u.read_ex f }
  install u (bio_write_ex f) = record u { write_ex = or_keep u.write_ex f }
  install u (bio_gets f) = record u { gets = or_keep u.gets f }
  install u (bio_puts f) = record u { puts = or_keep u.puts f }
  install u (bio_ctrl f) = record u { ctrl = or_keep u.ctrl f }
  install u (bio_up_ref f) = record u { up_ref = or_keep u.up_ref f }
  install u (bio_free f) = record u { free = or_keep u.free f }
  install u (bio_vprintf f) = record u { vprintf = or_keep u.vprintf f }
  install u (unknown n) = u

  -- oqs_prov_bio_from_dispatch, which always returns 1; the table ends before the entry 0.
  unfoldable pub bio_from_dispatch : Upcalls W H → List (Entry W H) → Upcalls W H
  bio_from_dispatch u [] = u
  bio_from_dispatch u (e ∷ es) = bio_from_dispatch (install u e) es

  module _ (u : Upcalls W H) where
    abbrev pub prov_bio_new_file : String → String → W → Option H × W
    prov_bio_new_file name mode w = elim u.new_file [ none ↦ (none, w) | some f ↦ f name mode w ]

    abbrev pub prov_bio_new_membuf : Bytes → ℕ → W → Option H × W
    prov_bio_new_membuf buf len w = elim u.new_membuf [ none ↦ (none, w) | some f ↦ f buf len w ]

    abbrev pub prov_bio_read_ex : Option H → ℕ → W → Option Bytes × W
    prov_bio_read_ex bio n w = elim u.read_ex [ none ↦ (none, w) | some f ↦ f bio n w ]

    abbrev pub prov_bio_write_ex : Option H → Bytes → W → Option ℕ × W
    prov_bio_write_ex bio data_ w = elim u.write_ex [ none ↦ (none, w) | some f ↦ f bio data_ w ]

    abbrev pub prov_bio_gets : Option H → ℕ → W → (CInt × Bytes) × W
    prov_bio_gets bio size w = elim u.gets [ none ↦ ((none, []), w) | some f ↦ f bio size w ]

    abbrev pub prov_bio_puts : Option H → Bytes → W → CInt × W
    prov_bio_puts bio str w = elim u.puts [ none ↦ (none, w) | some f ↦ f bio str w ]

    abbrev pub prov_bio_ctrl : Option H → ℕ → ℕ → W → CInt × W
    prov_bio_ctrl bio cmd num w = elim u.ctrl [ none ↦ (none, w) | some f ↦ f bio cmd num w ]

    unfoldable pub prov_bio_up_ref : Option H → W → Bool × W
    prov_bio_up_ref bio w = elim u.up_ref [ none ↦ (false, w) | some f ↦ f bio w ]

    unfoldable pub prov_bio_free : Option H → W → Bool × W
    prov_bio_free bio w = elim u.free [ none ↦ (false, w) | some f ↦ f bio w ]

    -- oqs_prov_bio_vprintf and oqs_prov_bio_printf, of a text that is formatted already.
    abbrev pub prov_bio_printf : Option H → Bytes → W → CInt × W
    prov_bio_printf bio text w = elim u.vprintf [ none ↦ (none, w) | some f ↦ f bio text w ]

  -- bio_core_free, as BIO_free calls it; a null BIO is left alone.
  unfoldable pub bio_free_out : Upcalls W H → Option (OutBio H) → W → W
  bio_free_out u none w = w
  bio_free_out u (some bio) w = (prov_bio_free u bio.handle w).1

  -- What the calls of oqs_bio_new_from_core_bio answer: there is a method, and BIO_new succeeds.
  unfoldable pub bio_new_from_core_bio :
      Upcalls W H → (method made : Bool) → H → W → Option (OutBio H) × W
  unfolding bio_free_out
  bio_new_from_core_bio u method made core w =
      if not (method && made)
      then (none, w)
      else (let r = prov_bio_up_ref u (some core) w in
          if not r.0
          then (none, bio_free_out u (some bio_core_new) r.1)
          else (some (record bio_core_new { handle = some core }), r.1))

  -- bio_core_read_ex, bio_core_write_ex, bio_core_ctrl, bio_core_gets and bio_core_puts
  module _ (u : Upcalls W H) (bio : OutBio H) where
    abbrev pub bio_core_read_ex : ℕ → W → Option Bytes × W
    bio_core_read_ex n w = prov_bio_read_ex u bio.handle n w

    abbrev pub bio_core_write_ex : Bytes → W → Option ℕ × W
    bio_core_write_ex data_ w = prov_bio_write_ex u bio.handle data_ w

    abbrev pub bio_core_ctrl : ℕ → ℕ → W → CInt × W
    bio_core_ctrl cmd num w = prov_bio_ctrl u bio.handle cmd num w

    abbrev pub bio_core_gets : ℕ → W → (CInt × Bytes) × W
    bio_core_gets size w = prov_bio_gets u bio.handle size w

    abbrev pub bio_core_puts : Bytes → W → CInt × W
    bio_core_puts str w = prov_bio_puts u bio.handle str w
