-- ===== src/Registry.antt =====
-- JobRegistry of include/sub0pipeline/remote/registry.hpp and src/remote/registry.cpp. `kinds_` is the
-- std::map as its entries in order; a function is its number, and an empty one is `none`. std::sort is an
-- argument of the fingerprint.
pub mod Lookup
use sub0pipeline.Prelude.{
  ℕ, zero, suc, ◌+◌, ◌*◌, ◌/◌, ◌%◌, ◌^◌, Bool, true, false, ◌&&◌, Option, none, some, List, [], ◌∷◌,
  ◌++◌, ltb, ◌==◌, if◌then◌else◌, length, same_bytes,
}
use sub0pipeline.Wire.{JobKindId, little, take}

pub record Entry : Type 0 where
  pub kind : JobKindId
  pub fn : ℕ

-- std::string's order, by bytes.
abbrev pub less_bytes : List ℕ → List ℕ → Bool
less_bytes [] [] = false
less_bytes [] (y ∷ ys) = true
less_bytes (x ∷ xs) [] = false
less_bytes (x ∷ xs) (y ∷ ys) = if ltb x y then true else if x == y then less_bytes xs ys else false

-- JobKindId's order: by name, then version.
abbrev pub less_kind : JobKindId → JobKindId → Bool
less_kind a b =
    if less_bytes a.name b.name
    then true
    else if same_bytes a.name b.name
    then ltb a.version b.version
    else false

-- `kind.version == version && kind.name == name`
abbrev pub is_kind : JobKindId → JobKindId → Bool
is_kind a b = (a.version == b.version) && same_bytes a.name b.name

-- try_emplace, in a map whose entries are in order: whether it inserts, and the map.
unfoldable pub try_emplace : JobKindId → ℕ → List Entry → Bool × List Entry
try_emplace kind fn [] = (true, record { kind = kind; fn = fn } ∷ [])
try_emplace kind fn (e ∷ es) =
    let rest = try_emplace kind fn es in
    if less_kind kind e.kind
    then (true, record { kind = kind; fn = fn } ∷ e ∷ es)
    else if is_kind e.kind kind
    then (false, e ∷ es)
    else (rest.0, e ∷ rest.1)

-- JobRegistry::add
unfoldable pub add : JobKindId → Option ℕ → List Entry → Bool × List Entry
unfolding try_emplace
add kind none entries = (false, entries)
add kind (some fn) entries = try_emplace kind fn entries

-- JobRegistry::find
unfoldable pub find : JobKindId → List Entry → Option ℕ
find kind [] = none
find kind (e ∷ es) = if is_kind e.kind kind then some e.fn else find kind es

-- JobRegistry::kinds
unfoldable pub kinds : List Entry → List JobKindId
kinds [] = []
kinds (e ∷ es) = e.kind ∷ kinds es

-- The exclusive or of the `bits` low bits.
abbrev pub exclusive_or : ℕ → ℕ → ℕ → ℕ
exclusive_or zero a b = 0
exclusive_or (suc bits) a b = (a + b) % 2 + 2 * exclusive_or bits (a / 2) (b / 2)

abbrev pub fnv_offset : ℕ
fnv_offset = 0xCBF29CE484222325

abbrev pub fnv_prime : ℕ
fnv_prime = 0x100000001B3

-- mix
unfoldable pub mix : ℕ → ℕ → ℕ
mix hash byte = exclusive_or 64 hash byte * fnv_prime % 2 ^ 64

unfoldable pub mix_all : ℕ → List ℕ → ℕ
unfolding mix
mix_all hash [] = hash
mix_all hash (b ∷ bs) = mix_all (mix hash b) bs

-- The bytes of a kind that registryFingerprint mixes.
unfoldable pub kind_bytes : JobKindId → List ℕ
unfolding little
kind_bytes kind =
    let size = if ltb 65535 (length kind.name) then 65535 else length kind.name in
    little 2 size ++ (take size kind.name ++ little 4 kind.version)

unfoldable pub mix_kinds : ℕ → List JobKindId → ℕ
unfolding mix_all kind_bytes
mix_kinds hash [] = hash
mix_kinds hash (k ∷ ks) = mix_kinds (mix_all hash (kind_bytes k)) ks

-- registryFingerprint
unfoldable pub registry_fingerprint : (List JobKindId → List JobKindId) → List JobKindId → ℕ
unfolding mix_kinds
registry_fingerprint sort ks = mix_kinds fnv_offset (sort ks)

-- JobRegistry::fingerprint
unfoldable pub fingerprint : (List JobKindId → List JobKindId) → List Entry → ℕ
unfolding registry_fingerprint kinds
fingerprint sort entries = registry_fingerprint sort (kinds entries)
