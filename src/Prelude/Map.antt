-- ===== src/Prelude/Map.antt =====
-- Go's `map[K]V` as an association list over a key type with a Boolean equality. The order of the
-- entries carries no meaning: the source ranges over a map only to delete or to collect.
use Prim.Native.Nat.{ℕ, ◌+◌, ◌≤◌}
use mathlib.Core.Path.{◌≡◌, refl, ap}
use mathlib.Core.Logic.{◌↔◌, inl, inr}
use mathlib.Core.Bool.{Bool, true}
use mathlib.Core.Option.{Option, none, some}
use mathlib.Core.List.{List, [], ◌∷◌}
use native.Mathlib.Omega.{arith}
use ocis_ftp_bridge.Prelude.Tests.{◌==◌ as nat_beq, ==_iff, if◌then◌else◌, Bool-cases}
use ocis_ftp_bridge.Prelude.Lists.{Bytes, same, same_iff}

pub record Eq {ℓ} (K : Type ℓ) : Type ℓ where
  pub beq : K → K → Bool
  pub beq_iff : (a b : K) → (beq a b ≡ true) ↔ (a ≡ b)

instance abbrev pub nat_eq : Eq ℕ
nat_eq = record { beq = nat_beq; beq_iff = ==_iff }

instance abbrev pub bytes_eq : Eq Bytes
bytes_eq = record { beq = same; beq_iff = same_iff }

abbrev pub Map {ℓ κ} : Type ℓ → Type κ → Type (ℓ ⊔ κ)
Map K V = List (K × V)

pub beq_refl {ℓ} : {K : Type ℓ} ⦃e : Eq K⦄ (k : K) → e.beq k k ≡ true
beq_refl ⦃e⦄ k = (e.beq_iff k k).1 refl

module _ {ℓ κ} {K : Type ℓ} {V : Type κ} ⦃e : Eq K⦄ where
  unfoldable pub lookup : K → Map K V → Option V
  lookup k [] = none
  lookup k ((j, v) ∷ m) = if e.beq j k then some v else lookup k m

  unfoldable pub delete : K → Map K V → Map K V
  delete k [] = []
  delete k ((j, v) ∷ m) = let rest = delete k m in if e.beq j k then rest else (j, v) ∷ rest

  unfoldable pub insert : K → V → Map K V → Map K V
  insert k v m = (k, v) ∷ delete k m

  pub lookup-delete :
      (k j : K) (m : Map K V) → lookup j (delete k m) ≡ (if e.beq k j then none else lookup j m)
  unfolding lookup delete
  lookup-delete k j [] = ground arith
  lookup-delete k j ((i, v) ∷ m) =
      ground (arith, e.beq_iff i k, e.beq_iff k j, e.beq_iff i j, lookup-delete k j m)

  pub lookup-insert :
      (k j : K) (v : V) (m : Map K V)
      → lookup j (insert k v m) ≡ (if e.beq k j then some v else lookup j m)
  unfolding lookup insert
  lookup-insert k j v m = ground (arith, lookup-delete k j m)

  pub lookup-insert_self : (k : K) (v : V) (m : Map K V) → lookup k (insert k v m) ≡ some v
  lookup-insert_self k v m = simp (lookup-insert, beq_refl)

  pub lookup-delete_self : (k : K) (m : Map K V) → lookup k (delete k m) ≡ none
  lookup-delete_self k m = simp (lookup-delete, beq_refl)

  -- No key stands twice.
  abbrev pub Distinct : Map K V → Type κ
  Distinct [] = Unit
  Distinct ((k, v) ∷ m) = (lookup k m ≡ none) × Distinct m

  pub lookup-delete-none :
      (k j : K) (m : Map K V) → lookup j m ≡ none → lookup j (delete k m) ≡ none
  lookup-delete-none k j m h = ground (arith, lookup-delete k j m)

  pub Distinct-delete : (k : K) (m : Map K V) → Distinct m → Distinct (delete k m)
  unfolding delete
  Distinct-delete k [] d = tt
  Distinct-delete k ((j, v) ∷ m) (fresh, d) = elim (Bool-cases (e.beq j k)) [
    | inl h ↦ rw h (Distinct-delete k m d)
    | inr h ↦ rw h (lookup-delete-none k j m fresh, Distinct-delete k m d)
  ]

  pub Distinct-insert : (k : K) (v : V) (m : Map K V) → Distinct m → Distinct (insert k v m)
  unfolding insert
  Distinct-insert k v m d = (lookup-delete_self k m, Distinct-delete k m d)

  -- A map without the key is left as it is.
  pub delete_absent : (k : K) (m : Map K V) → lookup k m ≡ none → delete k m ≡ m
  unfolding lookup delete
  delete_absent k [] h = refl
  delete_absent k ((j, v) ∷ m) h = ground (arith, delete_absent k m)

  -- The sum of a measure over the entries.
  unfoldable pub total : (K → V → ℕ) → Map K V → ℕ
  total f [] = 0
  total f ((k, v) ∷ m) = f k v + total f m

  -- The measure of the entry at a key, 0 where there is none.
  abbrev pub measured : (K → V → ℕ) → K → Option V → ℕ
  measured f k none = 0
  measured f k (some v) = f k v

  pub total-delete :
      (f : K → V → ℕ) (k : K) (m : Map K V)
      → Distinct m
      → total f (delete k m) + measured f k (lookup k m) ≡ total f m
  unfolding lookup delete total
  total-delete f k [] d = refl
  total-delete f k ((j, w) ∷ m) (fresh, d) = elim (Bool-cases (e.beq j k)) [
    | inl h ↦
        let eq : j ≡ k = (e.beq_iff j k).0 h in
        let gone : delete k m ≡ m = delete_absent k m (rw (← eq) fresh) in
        rw h (rw eq (omega (arith, ap (total f) gone)))
    | inr h ↦ rw h (omega (arith, total-delete f k m d))
  ]

  pub total-insert :
      (f : K → V → ℕ) (k : K) (v : V) (m : Map K V)
      → Distinct m
      → total f (insert k v m) + measured f k (lookup k m) ≡ total f m + f k v
  unfolding insert total
  total-insert f k v m d = omega (arith, total-delete f k m d)

  -- The entry at a key is one of the summands.
  pub measured-le-total :
      (f : K → V → ℕ) (k : K) (m : Map K V) → Distinct m → measured f k (lookup k m) ≤ total f m
  measured-le-total f k m d = omega (arith, total-delete f k m d)
