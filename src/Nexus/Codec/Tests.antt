-- ===== src/Nexus/Codec/Tests.antt =====
-- civsim_harness/nexus/codec.py on one frame in two pieces. The codec used here gives each
-- character its number, which is what UTF-8 does with an ASCII text.
use Prim.Native.Nat.{compare, Ordering}
use Prim.Native.Char.{char, IsScalar, IsLt}
use text.Mathlib.TextEquality.{IsScalar-prop}
use civ_sim_taskify.Prelude.{ℕ, String, ◌≡◌, refl, ap, ◌∙◌, some, List, [], ◌∷◌, arith}
use civ_sim_taskify.Prelude.Int.{pos}
use civ_sim_taskify.Errors.{Result, ok, err, unicode_error, nexus_error}
use civ_sim_taskify.Predicate.Values.{codes}
use civ_sim_taskify.Nexus.Codec.{
  Utf8, NexusFrame, encode_frame, pack_unsigned, pack_signed, try_take_one, drain, feed,
}
use civ_sim_taskify.Nexus.Codec.Header.{frame_length}
use civ_sim_taskify.Nexus.Codec.Streams.{Encodes, Stream, joined, feed_all, feed_all-encode}
use civ_sim_taskify.Nexus.Codec.Total.{feed_total}

abbrev Both : Ordering → Ordering → Type 0
Both Ordering.lt o = IsLt o
Both Ordering.eq _ = ⊥
Both Ordering.gt _ = ⊥

abbrev Scalar : Ordering → Ordering → Ordering → Type 0
Scalar Ordering.lt _ _ = Unit
Scalar Ordering.eq o p = Both o p
Scalar Ordering.gt o p = Both o p

abbrev IsLt-Dec : (o : Ordering) → Dec (IsLt o)
IsLt-Dec Ordering.lt = yes tt
IsLt-Dec Ordering.eq = no (λ e. e)
IsLt-Dec Ordering.gt = no (λ e. e)

abbrev Both-Dec : (o p : Ordering) → Dec (Both o p)
Both-Dec Ordering.lt p = IsLt-Dec p
Both-Dec Ordering.eq _ = no (λ e. e)
Both-Dec Ordering.gt _ = no (λ e. e)

abbrev Scalar-Dec : (o p q : Ordering) → Dec (Scalar o p q)
Scalar-Dec Ordering.lt _ _ = yes tt
Scalar-Dec Ordering.eq p q = Both-Dec p q
Scalar-Dec Ordering.gt p q = Both-Dec p q

abbrev char_if : (n : ℕ) → Dec (IsScalar n) → Result String → Result String
char_if n (no p) rest = err unicode_error
char_if n (yes p) (err e) = err e
char_if n (yes p) (ok s) = ok (String.◌∷◌ (char n p) s)

abbrev is_scalar : (n : ℕ) → Dec (IsScalar n)
is_scalar n = Scalar-Dec (compare n 55296) (compare 57343 n) (compare n 1114112)

abbrev text_of : List ℕ → Result String
text_of [] = ok String.[]
text_of (n ∷ ns) = char_if n (is_scalar n) (text_of ns)

char_if_same :
    (n : ℕ) (p : IsScalar n) (d : Dec (IsScalar n)) (s : String)
    → char_if n d (ok s) ≡ ok (String.◌∷◌ (char n p) s)
char_if_same n p (no q) s = absurd (q p)
char_if_same n p (yes q) s = ap (λ r. ok (String.◌∷◌ (char n r) s)) (IsScalar-prop n q p)

text_of-codes : (s : String) → text_of (codes s) ≡ ok s
text_of-codes String.[] = refl
text_of-codes (String.◌∷◌ (char n p) s) =
    ap (λ r. char_if n (is_scalar n) r) (text_of-codes s) ∙ char_if_same n p (is_scalar n) s

abbrev ascii : Utf8
ascii = record { encode = codes; decode = text_of; decode-encode = text_of-codes }

abbrev ping : NexusFrame
ping = record { tag = pos 3; payload = "hi" }

abbrev ping_bytes : List ℕ
ping_bytes = 3 ∷ 0 ∷ 0 ∷ 0 ∷ 3 ∷ 0 ∷ 0 ∷ 0 ∷ 104 ∷ 105 ∷ 0 ∷ []

ping_bytes-Encodes : Encodes ascii 16 ping ping_bytes
unfolding encode_frame pack_unsigned pack_signed frame_length
ping_bytes-Encodes = record { bytes = refl; allowed = omega arith }

ping-ping-Stream : Stream ascii 16 (ping ∷ ping ∷ []) (
    joined (
      (3 ∷ 0 ∷ 0 ∷ 0 ∷ 3 ∷ [])
      ∷ ((0 ∷ 0 ∷ 0 ∷ 104 ∷ 105 ∷ 0 ∷ 3 ∷ 0 ∷ 0 ∷ 0 ∷ 3 ∷ 0 ∷ 0 ∷ 0 ∷ 104 ∷ 105 ∷ 0 ∷ []) ∷ [])))
ping-ping-Stream = (
  ping_bytes,
  ping_bytes,
  refl,
  ping_bytes-Encodes,
  (ping_bytes, [], refl, ping_bytes-Encodes, refl),
)

zero_length_refused :
    feed ascii 16 [] (0 ∷ 0 ∷ 0 ∷ 0 ∷ 3 ∷ 0 ∷ 0 ∷ 0 ∷ [])
    ≡ some (err nexus_error, 0 ∷ 0 ∷ 0 ∷ 0 ∷ 3 ∷ 0 ∷ 0 ∷ 0 ∷ [])
unfolding feed drain try_take_one
zero_length_refused = refl

feed_all-encode_example :
    feed_all ascii 16
      ((3 ∷ 0 ∷ 0 ∷ 0 ∷ 3 ∷ [])
        ∷ ((0 ∷ 0 ∷ 0 ∷ 104 ∷ 105 ∷ 0 ∷ 3 ∷ 0 ∷ 0 ∷ 0 ∷ 3 ∷ 0 ∷ 0 ∷ 0 ∷ 104 ∷ 105 ∷ 0 ∷ []) ∷ []))
      []
      []
    ≡ some (ok (ping ∷ ping ∷ []), [])
feed_all-encode_example =
    feed_all-encode ascii 16 (ping ∷ ping ∷ [])
      ((3 ∷ 0 ∷ 0 ∷ 0 ∷ 3 ∷ [])
        ∷ ((0 ∷ 0 ∷ 0 ∷ 104 ∷ 105 ∷ 0 ∷ 3 ∷ 0 ∷ 0 ∷ 0 ∷ 3 ∷ 0 ∷ 0 ∷ 0 ∷ 104 ∷ 105 ∷ 0 ∷ []) ∷ []))
      ping-ping-Stream

feed_total_example :
    (o : Result (List NexusFrame) × List ℕ) × (feed ascii 16 [] ping_bytes ≡ some o)
feed_total_example = feed_total ascii 16 [] ping_bytes
