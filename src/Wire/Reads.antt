-- ===== src/Wire/Reads.antt =====
-- What a reader makes of bytes that a writer wrote, whatever follows them.
use mathlib.Core.List.{append_assoc}
use native.Mathlib.Nat.{pow-suc}
use sub0pipeline.Prelude.{
  ℕ, zero, suc, ◌/◌, ◌^◌, ◌≤◌, ◌<◌, ◌≡◌, refl, sym, ap, ◌∙◌, true, some, List, [], ◌∷◌, ◌++◌, arith,
  length, length-append,
}
use sub0pipeline.Wire.{
  Payload, PayloadKind, no_payload, inlined, handle, reference, Reader, M, ◌>>=◌, little, join,
  take, drop, take_bytes, read_little, read_string, read_blob, read_payload, payload_of, kind_byte,
  max_handle_bytes, is_ok, finish, frame_type, body_of, FrameType,
}
use sub0pipeline.Wire.Encode.{put_string, put_blob, put_payload}

abbrev pub at {ℓ} : {A : Type ℓ} → List ℕ → A → A × Reader
at tail v = (v, record { rest = tail; ok = true })

-- On the bytes `enc`, `m` reads `v` and stops behind them.
abbrev pub Reads {ℓ} : {A : Type ℓ} → List ℕ → M A → A → Type ℓ
Reads enc m v = (tail : List ℕ) → m (record { rest = enc ++ tail; ok = true }) ≡ at tail v

pub Reads-bind {ℓ κ} :
    {A : Type ℓ} {B : Type κ} (xs ys : List ℕ) (m : M A) (f : A → M B) (v : A) (w : B)
    → Reads xs m v
    → Reads ys (f v) w
    → Reads (xs ++ ys) (m >>= f) w
unfolding ◌>>=◌
Reads-bind xs ys m f v w hm hf tail =
    ap (λ bs. (m >>= f) (record { rest = bs; ok = true })) (append_assoc xs ys tail)
    ∙ ap (λ (p : _ × Reader). f p.0 p.1) (hm (ys ++ tail))
    ∙ hf tail

-- The last read of a block, and a step that reads nothing.
pub Reads-last {ℓ κ} :
    {A : Type ℓ} {B : Type κ} (xs : List ℕ) (m : M A) (f : A → M B) (v : A) (w : B)
    → Reads xs m v
    → Reads [] (f v) w
    → Reads xs (m >>= f) w
unfolding ◌>>=◌
Reads-last xs m f v w hm hf tail = ap (λ (p : _ × Reader). f p.0 p.1) (hm tail) ∙ hf tail

pub Reads-next {ℓ κ} :
    {A : Type ℓ} {B : Type κ} (ys : List ℕ) (m : M A) (f : A → M B) (v : A) (w : B)
    → Reads [] m v
    → Reads ys (f v) w
    → Reads ys (m >>= f) w
unfolding ◌>>=◌
Reads-next ys m f v w hm hf tail = ap (λ (p : _ × Reader). f p.0 p.1) (hm (ys ++ tail)) ∙ hf tail

pub length-little : (n v : ℕ) → length (little n v) ≡ n
unfolding little
length-little zero v = refl
length-little (suc n) v = ap suc (length-little n (v / 256))

pub join-little : (n v : ℕ) → v < 256 ^ n → join (little n v) ≡ v
unfolding little join
join-little zero v h = omega arith
join-little (suc n) v h = omega (arith, join-little n (v / 256) (omega (arith, pow-suc 256 n)))

pub take-append : (xs ys : List ℕ) → take (length xs) (xs ++ ys) ≡ xs
take-append [] ys = refl
take-append (x ∷ xs) ys = ap (◌∷◌ x) (take-append xs ys)

pub drop-append : (xs ys : List ℕ) → drop (length xs) (xs ++ ys) ≡ ys
drop-append [] ys = refl
drop-append (x ∷ xs) ys = drop-append xs ys

-- The reads of whole byte strings.
pub take_bytes-Reads : (xs : List ℕ) → Reads xs (take_bytes (length xs)) xs
unfolding take_bytes
take_bytes-Reads xs tail =
    ground (arith, length-append xs tail, take-append xs tail, drop-append xs tail)

pub read_little-Reads : (n v : ℕ) → v < 256 ^ n → Reads (little n v) (read_little n) v
unfolding read_little ◌>>=◌
read_little-Reads n v h tail =
    ap (λ k. read_little k (record { rest = little n v ++ tail; ok = true }))
      (sym (length-little n v))
    ∙ ap (λ (p : List ℕ × Reader). (join p.0, p.1)) (take_bytes-Reads (little n v) tail)
    ∙ ap (at tail) (join-little n v h)

pub read_string-Reads : (s : List ℕ) → length s < 65536 → Reads (put_string s) read_string s
unfolding read_string put_string
read_string-Reads s h =
    Reads-bind (little 2 (length s)) s (read_little 2) take_bytes (length s) s
      (read_little-Reads 2 (length s) (omega arith)) (take_bytes-Reads s)

pub read_blob-Reads : (b : List ℕ) → length b < 2 ^ 32 → Reads (put_blob b) read_blob b
unfolding read_blob put_blob
read_blob-Reads b h =
    Reads-bind (little 4 (length b)) b (read_little 4) take_bytes (length b) b
      (read_little-Reads 4 (length b) (omega arith)) (take_bytes-Reads b)

-- A payload that the writer accepts: no longer than its kind allows, and empty if it has no kind.
pub record PayloadOk (p : Payload) : Type 0 where
  pub long : length p.bytes < 2 ^ 32
  pub handles : p.kind ≡ handle → length p.bytes ≤ max_handle_bytes
  pub nothing : p.kind ≡ no_payload → p.bytes ≡ []

payload_of-kind : (p : Payload) → PayloadOk p → payload_of (kind_byte p.kind) p.bytes ≡ some p
unfolding payload_of
payload_of-kind p ok = by_kind p.kind refl
  where
    by_kind : (k : PayloadKind) → p.kind ≡ k → payload_of (kind_byte p.kind) p.bytes ≡ some p
    by_kind no_payload e = ground (arith, e, ok.nothing e)
    by_kind inlined e = ground (arith, e)
    by_kind handle e = ground (arith, e, ok.handles e)
    by_kind reference e = ground (arith, e)

kind_byte-lt : (k : PayloadKind) → kind_byte k < 256
kind_byte-lt k = ground arith

pub read_payload-Reads : (p : Payload) → PayloadOk p → Reads (put_payload p) read_payload (some p)
unfolding read_payload put_payload
read_payload-Reads p ok =
    Reads-bind (little 1 (kind_byte p.kind)) (put_blob p.bytes) (read_little 1) _ (kind_byte p.kind)
      (some p) (read_little-Reads 1 (kind_byte p.kind) (kind_byte-lt p.kind))
      (Reads-last (put_blob p.bytes) read_blob _ p.bytes (some p) (read_blob-Reads p.bytes ok.long)
        (Reads-next [] is_ok _ true (some p) (λ tail. refl)
          (λ tail. ap (at tail) (payload_of-kind p ok))))

-- A frame with a body below the 32-bit limit has its type and its body back.
pub body_of-finish :
    (type : FrameType) (body : List ℕ)
    → length body < 2 ^ 32
    → body_of type (finish type body) ≡ some body
unfolding body_of finish frame_type little join
body_of-finish type body h = by_type type
  where
    size : join (little 4 (length body)) ≡ length body
    size = join-little 4 (length body) (omega arith)

    by_type : (t : FrameType) → body_of t (finish t body) ≡ some body
    by_type t = ground (arith, size)
