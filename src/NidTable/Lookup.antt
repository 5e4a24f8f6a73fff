-- ===== src/NidTable/Lookup.antt =====
-- What the getters find after `set_nid`.
use Prim.Native.String.{String}
use text.Mathlib.Text.{◌==◌ as str_eq}
use oqs_provider.Base.{ℕ, ◌≡◌, refl, Option, none, some, List, [], ◌∷◌, if◌then◌else◌, arith, ◌≢◌}
use oqs_provider.NidTable.{NidName, set_nid, find_nid, get_secbits, get_keytype, get_oqsname}

-- The first row of a name.
unfoldable pub find_name : List NidName → String → Option NidName
find_name [] name = none
find_name (r ∷ rs) name = if str_eq r.tlsname name then some r else find_name rs name

-- No row has the number.
abbrev pub IsFresh : ℕ → List NidName → Type 0
IsFresh n [] = Unit {0}
IsFresh n (r ∷ rs) = (r.nid ≢ n) × IsFresh n rs

with_nid : ℕ → Option NidName → Option NidName
with_nid n none = none
with_nid n (some r) = some (record r { nid = n })

find_nid-none : (n : ℕ) (rows : List NidName) → IsFresh n rows → find_nid rows n ≡ none
unfolding find_nid
find_nid-none n [] h = refl
find_nid-none n (r ∷ rs) h = ground (arith, find_nid-none n rs h.1)

find_nid-set_nid :
    (rows : List NidName) (name : String) (n : ℕ)
    → IsFresh n rows
    → find_nid (set_nid rows name n).0 n ≡ with_nid n (find_name rows name)
unfolding find_nid set_nid find_name with_nid
find_nid-set_nid [] name n h = refl
find_nid-set_nid (r ∷ rs) name n h = ground (arith, find_nid-set_nid rs name n h.1)

find_nid-other :
    (rows : List NidName) (name : String) (n m : ℕ) (r : NidName)
    → find_name rows name ≡ some r
    → m ≢ n
    → m ≢ r.nid
    → find_nid (set_nid rows name n).0 m ≡ find_nid rows m
unfolding find_nid set_nid find_name
find_nid-other [] name n m r found h k = refl
find_nid-other (row ∷ rows) name n m r found h k = ground (arith, find_nid-other rows name n m r)

-- When a name that has a row gets a number that no row has, the getters find that row's security, kind and
-- liboqs name under the number, and a number that is neither the new one nor the row's old one gives
-- what it gave.
pub set_nid-getters :
    (rows : List NidName) (name : String) (n : ℕ) (r : NidName) (m : ℕ)
    → find_name rows name ≡ some r
    → IsFresh n rows
    → m ≢ n
    → m ≢ r.nid
    → (get_secbits (set_nid rows name n).0 n ≡ r.secbits)
      × (get_keytype (set_nid rows name n).0 n ≡ r.keytype)
      × (get_oqsname (set_nid rows name n).0 n ≡ some r.oqsname)
      × (find_nid (set_nid rows name n).0 m ≡ find_nid rows m)
unfolding get_secbits get_keytype get_oqsname with_nid
set_nid-getters rows name n r m found fresh h k = (
  rw (get_secbits, find_nid-set_nid rows name n fresh, found),
  rw (get_keytype, find_nid-set_nid rows name n fresh, found),
  rw (get_oqsname, find_nid-set_nid rows name n fresh, found),
  find_nid-other rows name n m r found h k,
)
