-- ===== src/Samples/Registry.antt =====
-- A registry with two kinds, for src/remote/registry.cpp.
use sub0pipeline.Prelude.{◌≡◌, true, false, none, some, List, [], ◌∷◌, ap, arith}
use sub0pipeline.Wire.{JobKindId}
use sub0pipeline.Registry.{Entry, add, find}
use sub0pipeline.Registry.Lookup.{empty, added, find-add}

abbrev resize : JobKindId
resize = record { name = 114 ∷ 101 ∷ []; version = 2 }

abbrev hash_kind : JobKindId
hash_kind = record { name = 104 ∷ []; version = 1 }

abbrev registry : List Entry
registry = (add resize (some 5) []).1

find-add_example :
    ((add hash_kind (some 6) registry).0
      ≡ (elim (find hash_kind registry) [ none ↦ true | some _ ↦ false ]))
    × (find hash_kind (add hash_kind (some 6) registry).1
        ≡ some (elim (find hash_kind registry) [ none ↦ 6 | some f ↦ f ]))
    × (find resize (add hash_kind (some 6) registry).1 ≡ find resize registry)
find-add_example =
    find-add hash_kind resize 6 (added resize (some 5) empty)
      (λ e. absurd (ground (arith, ap (λ (k : JobKindId). k.version) e)))
