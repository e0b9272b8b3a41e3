-- ===== src/Registry/Lookup.antt =====
-- What find answers after calls of add.
use sub0pipeline.Prelude.{
  ℕ, ◌<◌, ◌≡◌, refl, sym, ap, ◌∙◌, ◌≢◌, ◌⊎◌, inl, inr, true, false, Option, none, some, List, [],
  ◌∷◌, arith, Bool-cases, same_bytes, same_bytes_sound, same_bytes_refl,
}
use sub0pipeline.Wire.{JobKindId}
use sub0pipeline.Registry.{Entry, less_bytes, less_kind, is_kind, try_emplace, add, find}

less_bytes_irrefl : (xs : List ℕ) → less_bytes xs xs ≡ false
less_bytes_irrefl [] = refl
less_bytes_irrefl (x ∷ xs) = ground (arith, less_bytes_irrefl xs)

less_bytes_trans :
    (xs ys zs : List ℕ)
    → less_bytes xs ys ≡ true
    → less_bytes ys zs ≡ true
    → less_bytes xs zs ≡ true
less_bytes_trans [] [] [] a b = absurd (ground (arith, b))
less_bytes_trans [] (y ∷ ys) [] a b = absurd (ground (arith, b))
less_bytes_trans [] ys (z ∷ zs) a b = refl
less_bytes_trans (x ∷ xs) [] zs a b = absurd (ground (arith, a))
less_bytes_trans (x ∷ xs) (y ∷ ys) [] a b = absurd (ground (arith, b))
less_bytes_trans (x ∷ xs) (y ∷ ys) (z ∷ zs) a b = ground (arith, a, b, less_bytes_trans xs ys zs)

less_bytes_total :
    (xs ys : List ℕ) → less_bytes xs ys ≡ false → same_bytes xs ys ≡ false → less_bytes ys xs ≡ true
less_bytes_total [] [] a b = absurd (ground (arith, b))
less_bytes_total [] (y ∷ ys) a b = absurd (ground (arith, a))
less_bytes_total (x ∷ xs) [] a b = refl
less_bytes_total (x ∷ xs) (y ∷ ys) a b = ground (arith, a, b, less_bytes_total xs ys)

-- How one kind comes before another.
less_kind-cases :
    (a b : JobKindId)
    → less_kind a b ≡ true
    → (less_bytes a.name b.name ≡ true) ⊎ ((a.name ≡ b.name) × (a.version < b.version))
less_kind-cases a b h = elim (Bool-cases (less_bytes a.name b.name)) [
  | inl less ↦ inl less
  | inr other ↦ elim (Bool-cases (same_bytes a.name b.name)) [
    | inl same ↦ inr (same_bytes_sound a.name b.name same, ground (arith, h, other, same))
    | inr apart ↦ absurd (ground (arith, h, other, apart))
  ]
]

less_kind_same : (a b : JobKindId) → a.name ≡ b.name → a.version < b.version → less_kind a b ≡ true
less_kind_same a b e lt = ground (
  arith,
  lt,
  ap (less_bytes a.name) (sym e) ∙ less_bytes_irrefl a.name,
  ap (same_bytes a.name) (sym e) ∙ same_bytes_refl a.name,
)

less_kind_first : (a b : JobKindId) → less_bytes a.name b.name ≡ true → less_kind a b ≡ true
less_kind_first a b h = ground (arith, h)

less_kind_trans :
    (a b c : JobKindId) → less_kind a b ≡ true → less_kind b c ≡ true → less_kind a c ≡ true
less_kind_trans a b c h k = elim (less_kind-cases a b h) [
  | inl p ↦ elim (less_kind-cases b c k) [
    | inl q ↦ less_kind_first a c (less_bytes_trans a.name b.name c.name p q)
    | inr (e, lt) ↦ less_kind_first a c (ap (less_bytes a.name) (sym e) ∙ p)
  ]
  | inr (e, lt) ↦ elim (less_kind-cases b c k) [
    | inl q ↦ less_kind_first a c (ap (λ n. less_bytes n c.name) e ∙ q)
    | inr (e', lt') ↦ less_kind_same a c (e ∙ e') (omega (arith, lt, lt'))
  ]
]

less_kind_total :
    (a b : JobKindId) → less_kind a b ≡ false → is_kind b a ≡ false → less_kind b a ≡ true
less_kind_total a b h k = elim (Bool-cases (less_bytes b.name a.name)) [
  | inl less ↦ less_kind_first b a less
  | inr other ↦ elim (Bool-cases (same_bytes b.name a.name)) [
    | inl same ↦
        let e = same_bytes_sound b.name a.name same in
        let both = ap (same_bytes a.name) e ∙ same_bytes_refl a.name in
        let none_less = ap (less_bytes a.name) e ∙ less_bytes_irrefl a.name in
        less_kind_same b a e (ground (arith, h, k, same, both, none_less))
    | inr apart ↦ absurd (ground (arith, other, less_bytes_total b.name a.name other apart, h))
  ]
]

-- A kind is not before itself.
less_kind-apart : (a b : JobKindId) → less_kind a b ≡ true → is_kind b a ≡ false
less_kind-apart a b h = elim (Bool-cases (is_kind b a)) [
  | inr apart ↦ apart
  | inl same ↦
      let e = same_bytes_sound b.name a.name (ground (arith, same)) in
      absurd (ground (arith, h, same, ap (less_bytes a.name) e ∙ less_bytes_irrefl a.name))
]

-- The entries are in order, each kind before those behind it.
abbrev pub Above : JobKindId → List Entry → Type 0
Above kind [] = Unit {0}
Above kind (e ∷ es) = (less_kind kind e.kind ≡ true) × Above kind es

abbrev pub Ordered : List Entry → Type 0
Ordered [] = Unit {0}
Ordered (e ∷ es) = Above e.kind es × Ordered es

Above-trans : (a b : JobKindId) (es : List Entry) → less_kind a b ≡ true → Above b es → Above a es
Above-trans a b [] h k = tt
Above-trans a b (e ∷ es) h k = (less_kind_trans a b e.kind h k.0, Above-trans a b es h k.1)

Above-find : (kind : JobKindId) (es : List Entry) → Above kind es → find kind es ≡ none
unfolding find
Above-find kind [] h = refl
Above-find kind (e ∷ es) h = ground (arith, less_kind-apart kind e.kind h.0, Above-find kind es h.1)

Above-try_emplace :
    (a kind : JobKindId) (fn : ℕ) (es : List Entry)
    → less_kind a kind ≡ true
    → Above a es
    → Above a (try_emplace kind fn es).1
unfolding try_emplace
Above-try_emplace a kind fn [] h k = (h, tt)
Above-try_emplace a kind fn (e ∷ es) h k = elim (Bool-cases (less_kind kind e.kind)) [
  | inl before ↦ rw before (h, k)
  | inr after ↦ elim (Bool-cases (is_kind e.kind kind)) [
    | inl same ↦ rw (after, same) k
    | inr other ↦ rw (after, other) (k.0, Above-try_emplace a kind fn es h k.1)
  ]
]

-- What try_emplace does to a map in order.
record Emplaced (kind : JobKindId) (fn : ℕ) (es : List Entry) : Type 0 where
  ordered : Ordered (try_emplace kind fn es).1
  inserts : (try_emplace kind fn es).0 ≡ (elim (find kind es) [ none ↦ true | some _ ↦ false ])
  found :
      find kind (try_emplace kind fn es).1 ≡ some (elim (find kind es) [ none ↦ fn | some f ↦ f ])

is_kind_refl : (kind : JobKindId) → is_kind kind kind ≡ true
is_kind_refl kind = ground (arith, same_bytes_refl kind.name)

is_kind_sound : (a b : JobKindId) → is_kind a b ≡ true → a ≡ b
is_kind_sound a b h = ground (arith, h, same_bytes_sound a.name b.name (ground (arith, h)))

try_emplace-Emplaced :
    (kind : JobKindId) (fn : ℕ) (es : List Entry) → Ordered es → Emplaced kind fn es
unfolding try_emplace find
try_emplace-Emplaced kind fn [] h = record {
  ordered = (tt, tt);
  inserts = refl;
  found = ground (arith, is_kind_refl kind);
}
try_emplace-Emplaced kind fn (e ∷ es) h = elim (Bool-cases (less_kind kind e.kind)) [
  | inl before ↦
      let gone = Above-find kind (e ∷ es) (before, Above-trans kind e.kind es before h.0) in
      record {
        ordered = rw before ((before, Above-trans kind e.kind es before h.0), h);
        inserts = ground (arith, before, gone);
        found = ground (arith, before, gone, is_kind_refl kind);
      }
  | inr after ↦ elim (Bool-cases (is_kind e.kind kind)) [
    | inl same ↦ record {
      ordered = rw (after, same) h;
      inserts = ground (arith, after, same);
      found = ground (arith, after, same);
    }
    | inr other ↦
        let rest = try_emplace-Emplaced kind fn es h.1 in
        let behind = less_kind_total kind e.kind after other in
        record {
          ordered =
              rw (after, other) (Above-try_emplace e.kind kind fn es behind h.0, rest.ordered);
          inserts = ground (arith, after, other, rest.inserts);
          found = ground (arith, after, other, rest.found);
        }
  ]
]

-- The other kinds keep their functions.
try_emplace-other :
    (kind other : JobKindId) (fn : ℕ) (es : List Entry)
    → is_kind kind other ≡ false
    → find other (try_emplace kind fn es).1 ≡ find other es
unfolding try_emplace find
try_emplace-other kind other fn [] h = ground (arith, h)
try_emplace-other kind other fn (e ∷ es) h = elim (Bool-cases (less_kind kind e.kind)) [
  | inl before ↦ ground (arith, before, h)
  | inr after ↦ elim (Bool-cases (is_kind e.kind kind)) [
    | inl same ↦ ground (arith, after, same)
    | inr apart ↦ ground (arith, after, apart, try_emplace-other kind other fn es h)
  ]
]

-- The registries that calls of add make.
pub data Built : List Entry → Type 0 where
  empty : Built []
  added : {es : List Entry} (kind : JobKindId) (fn : Option ℕ) → Built es → Built (add kind fn es).1

Built-Ordered : {es : List Entry} → Built es → Ordered es
unfolding add
Built-Ordered empty = tt
Built-Ordered (added {es} kind none b) = Built-Ordered b
Built-Ordered (added {es} kind (some fn) b) =
    (try_emplace-Emplaced kind fn es (Built-Ordered b)).ordered

-- In a registry that calls of add made, add of a function answers true exactly if the kind is
-- new, and then find answers that function for the kind, else the one that the kind had; for
-- every other kind find answers what it did.
pub find-add :
    {es : List Entry} (kind other : JobKindId) (fn : ℕ)
    → Built es
    → kind ≢ other
    → ((add kind (some fn) es).0 ≡ (elim (find kind es) [ none ↦ true | some _ ↦ false ]))
      × (find kind (add kind (some fn) es).1
          ≡ some (elim (find kind es) [ none ↦ fn | some f ↦ f ]))
      × (find other (add kind (some fn) es).1 ≡ find other es)
unfolding add
find-add {es} kind other fn b apart =
    let made = try_emplace-Emplaced kind fn es (Built-Ordered b) in
    (
      made.inserts,
      made.found,
      try_emplace-other kind other fn es (elim (Bool-cases (is_kind kind other)) [
        | inl same ↦ absurd (apart (is_kind_sound kind other same))
        | inr differ ↦ differ
      ]),
    )
