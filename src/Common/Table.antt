-- ===== src/Common/Table.antt =====
-- Tables keyed by ids, in insertion order: a JavaScript `Map`, or the rows of a database table.
pub mod Sums
use Prim.Native.Nat.{ℕ}
use mathlib.Core.Path.{◌≡◌}
use mathlib.Core.Logic.{◌≢◌}
use mathlib.Core.Option.{Option, none, some}
use mathlib.Core.List.{List, [], ◌∷◌}
use native.Mathlib.Omega.{arith}
use nexus_efos.Common.Tests.{◌==◌, if◌then◌else◌}

abbrev pub Table {ℓ} : Type ℓ → Type ℓ
Table V = List (ℕ × V)

module _ {ℓ} {V : Type ℓ} where
  abbrev pub get : ℕ → Table V → Option V
  get k [] = none
  get k ((j, v) ∷ t) = if k == j then some v else get k t

  abbrev pub get_or : ℕ → V → Table V → V
  get_or k d [] = d
  get_or k d ((j, v) ∷ t) = if k == j then v else get_or k d t

  -- `map.set(k, v)`
  abbrev pub set : ℕ → V → Table V → Table V
  set k v [] = (k, v) ∷ []
  set k v ((j, w) ∷ t) = if k == j then (j, v) ∷ t else (j, w) ∷ set k v t

  -- `updateMany`: each row is written anew.
  abbrev pub update_many : (V → V) → Table V → Table V
  update_many f [] = []
  update_many f ((k, v) ∷ t) = (k, f v) ∷ update_many f t

  abbrev pub IsFresh : ℕ → Table V → Type 0
  IsFresh k [] = Unit
  IsFresh k ((j, v) ∷ t) = (j ≢ k) × IsFresh k t

  -- No key stands twice.
  abbrev pub IsNodup : Table V → Type 0
  IsNodup [] = Unit
  IsNodup ((k, v) ∷ t) = IsFresh k t × IsNodup t

  pub get-set_self : (k : ℕ) (v : V) (t : Table V) → get k (set k v t) ≡ some v
  get-set_self k v [] = ground arith
  get-set_self k v ((j, w) ∷ t) = ground (arith, get-set_self k v t)

  pub get-set_ne : (k j : ℕ) (v : V) (t : Table V) → k ≢ j → get k (set j v t) ≡ get k t
  get-set_ne k j v [] h = ground arith
  get-set_ne k j v ((i, w) ∷ t) h = ground (arith, get-set_ne k j v t h)

  pub get_or-set :
      (k j : ℕ) (v d : V) (t : Table V)
      → get_or k d (set j v t) ≡ (if k == j then v else get_or k d t)
  get_or-set k j v d [] = ground arith
  get_or-set k j v d ((i, w) ∷ t) = ground (arith, get_or-set k j v d t)

  pub IsFresh-set : (k j : ℕ) (v : V) (t : Table V) → IsFresh k t → j ≢ k → IsFresh k (set j v t)
  IsFresh-set k j v [] f h = (h, tt)
  IsFresh-set k j v ((i, w) ∷ t) f h = ground (arith, IsFresh-set k j v t f.1 h)

  pub IsNodup-set : (k : ℕ) (v : V) (t : Table V) → IsNodup t → IsNodup (set k v t)
  IsNodup-set k v [] n = (tt, tt)
  IsNodup-set k v ((i, w) ∷ t) n = ground (arith, IsNodup-set k v t n.1, IsFresh-set i k v t n.0)

  pub get-set :
      (k j : ℕ) (v : V) (t : Table V) → get k (set j v t) ≡ (if k == j then some v else get k t)
  get-set k j v [] = ground arith
  get-set k j v ((i, w) ∷ t) = ground (arith, get-set k j v t)
