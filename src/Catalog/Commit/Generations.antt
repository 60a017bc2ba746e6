-- ===== src/Catalog/Commit/Generations.antt =====
-- internal/catalog/store.go: the numbers of the generations.
use m365_backup.Base.{
  ℕ, ◌+◌, ◌<◌, ◌≡◌, refl, Bool, false, ◌&&◌, List, [], ◌∷◌, ◌++◌, Text, arith, same, any,
  any-append, ◌==◌, same_sym,
}
use m365_backup.Catalog.Item.{Snapshot}
use m365_backup.Catalog.Commit.{max_generation, next_generation}

abbrev pub has_generation : Text → ℕ → Snapshot → Bool
has_generation service gen sn = same sn.service service && sn.generation == gen

-- The UNIQUE constraint on (tenant, service, generation).
abbrev pub UniqueGenerations : List Snapshot → Type 0
UniqueGenerations [] = Unit {0}
UniqueGenerations (sn ∷ sns) =
    (any (has_generation sn.service sn.generation) sns ≡ false) × UniqueGenerations sns

-- Every generation of the service is at most the highest.
unused_above :
    (sns : List Snapshot) (service : Text) (gen : ℕ)
    → max_generation sns service < gen
    → any (has_generation service gen) sns ≡ false
unfolding max_generation any
unused_above [] service gen h = refl
unused_above (sn ∷ sns) service gen h = ground (arith, unused_above sns service gen)

-- The next generation of a service is higher than that of each of its snapshots, and unused.
pub next_generation-fresh :
    (sns : List Snapshot) (service : Text)
    → any (has_generation service (next_generation sns service)) sns ≡ false
unfolding next_generation
next_generation-fresh sns service =
    unused_above sns service (max_generation sns service + 1) (omega arith)

pub UniqueGenerations-append :
    (sns : List Snapshot) (sn : Snapshot)
    → UniqueGenerations sns
    → any (has_generation sn.service sn.generation) sns ≡ false
    → UniqueGenerations (sns ++ sn ∷ [])
unfolding any
UniqueGenerations-append [] sn u h = (refl, tt)
UniqueGenerations-append (x ∷ xs) sn u h = (
  ground (
    arith,
    any-append (has_generation x.service x.generation) xs (sn ∷ []),
    u.0,
    same_sym sn.service x.service,
  ),
  UniqueGenerations-append xs sn u.1 (ground arith),
)
