-- ===== src/Wire/RoundTrip.antt =====
-- Every decoder of src/remote/wire.cpp reads back what its encoder wrote.
use mathlib.Core.List.{append-nil}
use sub0pipeline.Prelude.{
  ℕ, zero, suc, ◌+◌, ◌^◌, ◌≤◌, ◌<◌, ◌≡◌, refl, sym, ap, ◌∙◌, true, Option, some, List, [], ◌∷◌,
  ◌++◌, arith, length, length-append,
}
use sub0pipeline.Wire.{
  FrameType, cancel, hello_reject, HelloReject, M, little, take, read_little, read_string, is_ok,
  finish, body_of,
}
use sub0pipeline.Wire.Encode.{encode_cancel, encode_reject, put_string}
use sub0pipeline.Wire.Decode.{decode_cancel, decode_reject, read_cancel, read_reject, run, start}
use sub0pipeline.Wire.Reads.{
  Reads, Reads-bind, Reads-last, Reads-next, length-little, read_little-Reads, read_string-Reads,
  body_of-finish,
}

-- What a decoder makes of a finished frame.
pub run-finish {ℓ} :
    {A : Type ℓ} (type : FrameType) (body : List ℕ) (m : M (Option A)) (a : A)
    → length body < 2 ^ 32
    → Reads body m (some a)
    → run (body_of type (finish type body)) m ≡ some a
run-finish type body m a h reads =
    ap (λ b. run b m) (body_of-finish type body h)
    ∙ ap (λ bs. (m (start bs)).0) (sym (append-nil body))
    ∙ ap (λ p. p.0) (reads [])

-- A cancel frame for an id below 2^64 decodes to the id.
decode_cancel-encode_cancel : (id : ℕ) → id < 2 ^ 64 → decode_cancel (encode_cancel id) ≡ some id
unfolding decode_cancel encode_cancel read_cancel
decode_cancel-encode_cancel id h =
    run-finish cancel (little 8 id) read_cancel id (omega (arith, length-little 8 id)) (
      Reads-last (little 8 id) (read_little 8) _ id (some id) (read_little-Reads 8 id (omega arith))
        (Reads-next [] is_ok _ true (some id) (λ tail. refl) (λ tail. refl)))

pub length-put_string : (s : List ℕ) → length (put_string s) ≡ 2 + length s
unfolding put_string
length-put_string s =
    ground (arith, length-append (little 2 (length s)) s, length-little 2 (length s))

pub take-le : (n : ℕ) (s : List ℕ) → length (take n s) ≤ n
take-le zero s = omega arith
take-le (suc n) [] = omega arith
take-le (suc n) (x ∷ s) = omega (arith, take-le n s)

-- A reject frame, whose reason is a byte, decodes to the reason and the detail, cut to 65535 bytes.
decode_reject-encode_reject :
    (r : HelloReject)
    → r.reason < 256
    → decode_reject (encode_reject r) ≡ some (record r { detail = take 65535 r.detail })
unfolding decode_reject encode_reject read_reject
decode_reject-encode_reject r h =
    run-finish hello_reject (little 1 r.reason ++ put_string s) read_reject back
      (ground (
        arith,
        length-append (little 1 r.reason) (put_string s),
        length-little 1 r.reason,
        length-put_string s,
        short,
      ))
      (Reads-bind (little 1 r.reason) (put_string s) (read_little 1) _ r.reason (some back)
        (read_little-Reads 1 r.reason h)
        (Reads-last (put_string s) read_string _ s (some back)
          (read_string-Reads s (omega (arith, short)))
          (Reads-next [] is_ok _ true (some back) (λ tail. refl) (λ tail. refl))))
  where
    s : List ℕ
    s = take 65535 r.detail

    back : HelloReject
    back = record r { detail = take 65535 r.detail }

    short : length (take 65535 r.detail) ≤ 65535
    short = take-le 65535 r.detail
