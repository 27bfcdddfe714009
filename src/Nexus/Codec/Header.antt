-- ===== src/Nexus/Codec/Header.antt =====
-- One frame at the front of a buffer: a whole frame is taken, a proper part of one is awaited.
use civ_sim_taskify.Prelude.{
  ℕ, zero, suc, ◌+◌, ◌-◌, ◌≤◌, ◌<◌, String, ◌≡◌, refl, sym, ap, ◌∙◌, some, List, [], ◌∷◌, ◌++◌,
  length, length-append, take, drop, take-append, drop-append, cut_front, Bool-cases, inl, inr, leb,
  ltb, lt→ltb, ltb→lt, if◌then◌else◌, arith,
}
use civ_sim_taskify.Prelude.Int.{ℤ, pos, negsuc}
use civ_sim_taskify.Errors.{ok}
use civ_sim_taskify.Nexus.Codec.{
  Utf8, bytes_of, word_at, pack_unsigned, pack_signed, signed_at, without_nul, Taken, short, took,
  encode_frame, decode_body, try_take_one,
}

-- The word that stands for a tag.
abbrev pub tag_word : ℤ → ℕ
tag_word (pos n) = n
tag_word (negsuc n) = 4294967295 - n

-- The tags that format `i` accepts.
abbrev pub TagFits : ℤ → Type 0
TagFits (pos n) = n < 2147483648
TagFits (negsuc n) = n < 2147483648

abbrev header : ℕ → ℕ → List ℕ → List ℕ
header n k tail = (bytes_of n ++ bytes_of k) ++ tail

word_first : (n k : ℕ) (tail : List ℕ) → n < 4294967296 → word_at (header n k tail) 0 ≡ n
word_first n k tail h = omega arith

word_second : (n k : ℕ) (tail : List ℕ) → k < 4294967296 → word_at (header n k tail) 4 ≡ k
word_second n k tail h = omega arith

signed_second :
    (n : ℕ) (tag : ℤ) (tail : List ℕ)
    → TagFits tag
    → signed_at (header n (tag_word tag) tail) 4 ≡ tag
unfolding signed_at
signed_second n (pos m) tail h = rw (word_second n m tail (omega arith)) (ground arith)
signed_second n (negsuc m) tail h =
    rw (word_second n (4294967295 - m) tail (omega arith)) (ground arith)

without_nul-append : (bs : List ℕ) → without_nul (bs ++ 0 ∷ []) ≡ some bs
unfolding without_nul
without_nul-append [] = refl
without_nul-append (zero ∷ []) = refl
without_nul-append (suc b ∷ []) = refl
without_nul-append (b ∷ c ∷ bs) = ground (arith, without_nul-append (c ∷ bs))

drop_header :
    (a b c d e f g h n : ℕ) (tail : List ℕ)
    → drop (8 + n) (a ∷ b ∷ c ∷ d ∷ e ∷ f ∷ g ∷ h ∷ tail) ≡ drop n tail
drop_header a b c d e f g h n tail =
    ap (λ k. drop k (a ∷ b ∷ c ∷ d ∷ e ∷ f ∷ g ∷ h ∷ tail))
      (let q : 8 + n ≡ suc (suc (suc (suc (suc (suc (suc (suc n))))))) = omega arith in q)

tests_pass :
    (max n size : ℕ) (a b c d e : Taken)
    → 0 < n
    → n ≤ max
    → n ≤ size
    → (if ltb (8 + size) 8
        then a
        else if leb n 0
        then b
        else if ltb max n
        then c
        else if ltb (8 + size) (8 + n)
        then d
        else e)
      ≡ e
tests_pass max n size a b c d e p q r = ground arith

tests_wait :
    (max n size : ℕ) (b c e : Taken)
    → 0 < n
    → n ≤ max
    → size < n
    → (if ltb (8 + size) 8
        then short
        else if leb n 0
        then b
        else if ltb max n
        then c
        else if ltb (8 + size) (8 + n)
        then short
        else e)
      ≡ short
tests_wait max n size b c e p q r = ground arith

length-header : (n k : ℕ) (tail : List ℕ) → length (header n k tail) ≡ 8 + length tail
length-header n k tail = omega arith

module _ (utf8 : Utf8) where
  header_taken :
      (max n : ℕ) (tag : ℤ) (tail : List ℕ)
      → n < 4294967296
      → TagFits tag
      → 0 < n
      → n ≤ max
      → n ≤ length tail
      → try_take_one utf8 max (header n (tag_word tag) tail)
        ≡ decode_body utf8 tag (drop n tail) (without_nul (take n tail))
  unfolding try_take_one
  header_taken max n tag tail small fits positive allowed enough =
      rw
        (
          word_first n (tag_word tag) tail small,
          signed_second n tag tail fits,
          length-header n (tag_word tag) tail,
          drop_header _ _ _ _ _ _ _ _ n tail,
        )
        (tests_pass max n (length tail) _ _ _ _ _ positive allowed enough)

  header_awaited :
      (max n : ℕ) (tag : ℤ) (tail : List ℕ)
      → n < 4294967296
      → 0 < n
      → n ≤ max
      → length tail < n
      → try_take_one utf8 max (header n (tag_word tag) tail) ≡ short
  unfolding try_take_one
  header_awaited max n tag tail small positive allowed enough =
      rw (word_first n (tag_word tag) tail small, length-header n (tag_word tag) tail)
        (tests_wait max n (length tail) _ _ _ positive allowed enough)

  body : String → List ℕ
  body payload = utf8.encode payload ++ 0 ∷ []

  -- What an encoded frame is made of.
  encode_parts :
      (tag : ℤ) (payload : String) (e : List ℕ)
      → encode_frame utf8 tag payload ≡ ok e
      → (length (body payload) < 4294967296)
        × TagFits tag
        × (e ≡ header (length (body payload)) (tag_word tag) (body payload))
  unfolding encode_frame pack_unsigned pack_signed body
  encode_parts (pos n) payload e h = ground arith
  encode_parts (negsuc n) payload e h = ground arith

  body_pos : (payload : String) → 0 < length (body payload)
  unfolding body
  body_pos payload = omega (arith, length-append (utf8.encode payload) (0 ∷ []))

  -- The length that a frame declares.
  unfoldable pub frame_length : String → ℕ
  unfolding body
  frame_length payload = length (body payload)

  body_decoded :
      (tag : ℤ) (payload : String) (rest : List ℕ)
      → decode_body utf8 tag
          (drop (length (body payload)) (body payload ++ rest))
          (without_nul (take (length (body payload)) (body payload ++ rest)))
        ≡ took (record { tag = tag; payload = payload }) rest
  unfolding body
  body_decoded tag payload rest = rw (
    take-append (utf8.encode payload ++ 0 ∷ []) rest,
    drop-append (utf8.encode payload ++ 0 ∷ []) rest,
    without_nul-append (utf8.encode payload),
    utf8.decode-encode payload,
  )

  -- A buffer that starts with an encoded frame, within the limit, gives the frame and keeps the rest.
  pub take_whole :
      (max : ℕ) (tag : ℤ) (payload : String) (e rest : List ℕ)
      → encode_frame utf8 tag payload ≡ ok e
      → frame_length payload ≤ max
      → try_take_one utf8 max (e ++ rest) ≡ took (record { tag = tag; payload = payload }) rest
  unfolding frame_length
  take_whole max tag payload e rest h fits =
      let (small, tag_fits, shape) = encode_parts tag payload e h in
      rw shape (
        header_taken max (length (body payload)) tag (body payload ++ rest) small tag_fits
          (body_pos payload) fits (omega (arith, length-append (body payload) rest))
        ∙ body_decoded tag payload rest)

  pub short_header : (max : ℕ) (buf : List ℕ) → length buf < 8 → try_take_one utf8 max buf ≡ short
  unfolding try_take_one
  short_header max buf h = rw (lt→ltb (length buf) 8 h)

  header_part :
      (max n : ℕ) (tag : ℤ) (bs b c : List ℕ)
      → n < 4294967296
      → 0 < n
      → n ≤ max
      → length bs ≡ n
      → header n (tag_word tag) bs ≡ b ++ c
      → 0 < length c
      → 8 ≤ length b
      → try_take_one utf8 max b ≡ short
  header_part max n tag bs b c small positive allowed size e p h =
      let (ds, shape, tail) = cut_front (bytes_of n ++ bytes_of (tag_word tag)) bs b c e h in
      rw shape (
        header_awaited max n tag ds small positive allowed
          (omega (arith, ap length tail, length-append ds c)))

  -- A buffer that holds a proper part of an encoded frame, within the limit, is left to wait.
  pub take_part :
      (max : ℕ) (tag : ℤ) (payload : String) (e b c : List ℕ)
      → encode_frame utf8 tag payload ≡ ok e
      → frame_length payload ≤ max
      → e ≡ b ++ c
      → 0 < length c
      → try_take_one utf8 max b ≡ short
  unfolding frame_length
  take_part max tag payload e b c h fits cut p =
      let (small, tag_fits, shape) = encode_parts tag payload e h in
      elim (Bool-cases (ltb (length b) 8)) [
        | inl less ↦ short_header max b (ltb→lt _ _ less)
        | inr more ↦
            header_part max (length (body payload)) tag (body payload) b c small (body_pos payload)
              fits refl (sym shape ∙ cut) p (ground arith)
      ]

  -- The size of an encoded frame: eight bytes more than its declared length.
  pub length-encode :
      (tag : ℤ) (payload : String) (e : List ℕ)
      → encode_frame utf8 tag payload ≡ ok e
      → length e ≡ 8 + frame_length payload
  unfolding frame_length
  length-encode tag payload e h =
      let (small, tag_fits, shape) = encode_parts tag payload e h in
      omega (
        arith,
        ap length shape,
        length-header (length (body payload)) (tag_word tag) (body payload),
      )
