-- ===== src/Provider/Registration/Names.antt =====
-- Lists of names in which no name stands twice.
use Prim.Native.String.{String}
use text.Mathlib.Text.{◌==◌ as str_eq}
use text.Mathlib.TextEquality.{eq_iff}
use oqs_provider.Base.{
  ℕ, zero, suc, ◌≡◌, refl, Bool, true, false, not, ◌&&◌, some, List, [], ◌∷◌, ◌++◌, get_elem?,
}
use oqs_provider.NidTable.{NidName}

abbrev pub all_fresh : String → List NidName → Bool
all_fresh name [] = true
all_fresh name (r ∷ rs) = not (str_eq name r.tlsname) && all_fresh name rs

abbrev pub distinct_names : List NidName → Bool
distinct_names [] = true
distinct_names (r ∷ rs) = all_fresh r.tlsname rs && distinct_names rs

pub both_true : (a b : Bool) → (a && b) ≡ true → (a ≡ true) × (b ≡ true)
both_true true b h = (refl, h)
both_true false b h = absurd cc

not-true : (b : Bool) → not b ≡ true → b ≡ false
not-true true h = absurd cc
not-true false h = refl

fresh_middle :
    (name : String) (done : List NidName) (r : NidName) (rest : List NidName)
    → all_fresh name (done ++ (r ∷ rest)) ≡ true
    → str_eq name r.tlsname ≡ false
fresh_middle name [] r rest e = not-true _ (both_true _ _ e).0
fresh_middle name (d ∷ done) r rest e =
    fresh_middle name done r rest (both_true (not (str_eq name d.tlsname)) _ e).1

-- The first name is not that of a later row, and the rest has no name twice.
pub distinct_middle :
    (d : NidName) (done : List NidName) (r : NidName) (rest : List NidName)
    → distinct_names (d ∷ (done ++ (r ∷ rest))) ≡ true
    → (str_eq d.tlsname r.tlsname ≡ false) × (distinct_names (done ++ (r ∷ rest)) ≡ true)
distinct_middle d done r rest e =
    let both = both_true (all_fresh d.tlsname (done ++ (r ∷ rest))) _ e in
    (fresh_middle d.tlsname done r rest both.0, both.1)

pub fresh_at :
    (name : String) (rows : List NidName) (j : ℕ) (r : NidName)
    → all_fresh name rows ≡ true
    → get_elem? rows j ≡ some r
    → str_eq name r.tlsname ≡ false
fresh_at name [] j r e at = absurd cc
fresh_at name (x ∷ rows) zero r e at = found at (not-true _ (both_true _ _ e).0)
  where
    found : some x ≡ some r → str_eq name x.tlsname ≡ false → str_eq name r.tlsname ≡ false
    found h f = cc
fresh_at name (x ∷ rows) (suc j) r e at =
    fresh_at name rows j r (both_true (not (str_eq name x.tlsname)) _ e).1 at

-- Identifiers and names in turn, with the names of the rows.
abbrev pub Matches : List String → List NidName → Type 0
Matches [] [] = Unit
Matches (oid ∷ name ∷ list) (r ∷ rs) = (name ≡ r.tlsname) × Matches list rs
Matches _ _ = ⊥

abbrev pub names_match : List String → List NidName → Bool
names_match [] [] = true
names_match (oid ∷ name ∷ list) (r ∷ rs) = str_eq name r.tlsname && names_match list rs
names_match _ _ = false

pub names_match-Matches :
    (list : List String) (rows : List NidName) → names_match list rows ≡ true → Matches list rows
names_match-Matches [] [] e = tt
names_match-Matches [] (r ∷ rows) e = absurd cc
names_match-Matches (oid ∷ []) [] e = absurd cc
names_match-Matches (oid ∷ []) (r ∷ rows) e = absurd cc
names_match-Matches (oid ∷ name ∷ list) [] e = absurd cc
names_match-Matches (oid ∷ name ∷ list) (r ∷ rows) e =
    let both = both_true (str_eq name r.tlsname) _ e in
    ((eq_iff name r.tlsname).0 both.0, names_match-Matches list rows both.1)
