-- ===== src/Nexus/Codec/Streams.antt =====
-- Frames sent as one stream of bytes come out of the decoder whatever way the stream is cut.
use civ_sim_taskify.Prelude.{
  ℕ, zero, suc, ◌≤◌, ◌<◌, ◌≡◌, refl, sym, ap, ◌∙◌, subst, inl, inr, Option, none, some, List, [],
  ◌∷◌, ◌++◌, length, length-append, cut_front, Bool-cases, leb, leb→le, arith,
}
use mathlib.Core.List.{append_assoc, append-nil}
use civ_sim_taskify.Errors.{Result, ok, err}
use civ_sim_taskify.Nexus.Codec.{
  Utf8, NexusFrame, Taken, short, took, encode_frame, on_taken, drain, feed,
}
use civ_sim_taskify.Nexus.Codec.Header.{
  take_whole, take_part, short_header, frame_length, length-encode,
}

-- `e` is the encoding of `f`, and the decoder's limit allows it.
pub record Encodes (utf8 : Utf8) (max : ℕ) (f : NexusFrame) (e : List ℕ) : Type 0 where
  pub bytes : encode_frame utf8 f.tag f.payload ≡ ok e
  pub allowed : frame_length utf8 f.payload ≤ max

-- The bytes are those of the frames, one after the other.
abbrev pub Stream : Utf8 → ℕ → List NexusFrame → List ℕ → Type 0
Stream utf8 max [] bs = bs ≡ []
Stream utf8 max (f ∷ fs) bs =
    (e : List ℕ) × (tail : List ℕ) × (bs ≡ e ++ tail)
    × Encodes utf8 max f e
    × Stream utf8 max fs tail

-- The bytes of all chunks.
abbrev pub joined : List (List ℕ) → List ℕ
joined [] = []
joined (c ∷ cs) = c ++ joined cs

-- One chunk after the other, as a reader feeds them, with the frames collected in order.
module _ (utf8 : Utf8) (max : ℕ) where
  abbrev pub then_feed :
      (List ℕ → List NexusFrame → Option (Result (List NexusFrame) × List ℕ))
      → List NexusFrame
      → Option (Result (List NexusFrame) × List ℕ)
      → Option (Result (List NexusFrame) × List ℕ)
  then_feed next frames none = none
  then_feed next frames (some (err e, buf)) = some (err e, buf)
  then_feed next frames (some (ok new, buf)) = next buf (frames ++ new)

  unfoldable pub feed_all :
      List (List ℕ) → List ℕ → List NexusFrame → Option (Result (List NexusFrame) × List ℕ)
  feed_all [] buf frames = some (ok frames, buf)
  feed_all (c ∷ cs) buf frames = then_feed (feed_all cs) frames (feed utf8 max buf c)

  -- From `b`, of which `rest` is still to come, the decoder gave `given` and keeps `kept`.
  record Drained (fs : List NexusFrame) (rest : List ℕ) (frames : List NexusFrame)
      (o : Option (Result (List NexusFrame) × List ℕ)) : Type 0 where
    given : List NexusFrame
    left : List NexusFrame
    kept : List ℕ
    whole : fs ≡ given ++ left
    result : o ≡ some (ok (frames ++ given), kept)
    remains : Stream utf8 max left (kept ++ rest)
    no_more : length rest ≡ 0 → left ≡ []

  drain_step :
      (f : NexusFrame) (fs : List NexusFrame) (frames : List NexusFrame) (rest : List ℕ)
      {o p : Option (Result (List NexusFrame) × List ℕ)}
      → o ≡ p
      → Drained fs rest (frames ++ f ∷ []) p
      → Drained (f ∷ fs) rest frames o
  drain_step f fs frames rest e d = record {
    given = f ∷ d.given;
    left = d.left;
    kept = d.kept;
    whole = ap (λ l. f ∷ l) d.whole;
    result = e ∙ d.result ∙ ap (λ l. some (ok l, d.kept)) (append_assoc frames (f ∷ []) d.given);
    remains = d.remains;
    no_more = d.no_more;
  }

  on_short :
      (again : List ℕ → List NexusFrame → Option (Result (List NexusFrame) × List ℕ))
      (frames : List NexusFrame) (b : List ℕ) (t : Taken)
      → t ≡ short
      → on_taken utf8 again frames b t ≡ some (ok (frames ++ []), b)
  on_short again frames b t e = rw (e, append-nil)

  on_took :
      (again : List ℕ → List NexusFrame → Option (Result (List NexusFrame) × List ℕ))
      (frames : List NexusFrame) (b : List ℕ) (f : NexusFrame) (rest : List ℕ) (t : Taken)
      → t ≡ took f rest
      → on_taken utf8 again frames b t ≡ again rest (frames ++ f ∷ [])
  on_took again frames b f rest t e = rw e

  drain-Drained :
      (fuel : ℕ) (fs : List NexusFrame) (bs b rest : List ℕ) (frames : List NexusFrame)
      → Stream utf8 max fs bs
      → bs ≡ b ++ rest
      → length b < fuel
      → Drained fs rest frames (drain utf8 max fuel b frames)
  unfolding drain
  drain-Drained zero fs bs b rest frames s e h = elim h [ ]
  drain-Drained (suc fuel) [] bs [] rest frames s e h = record {
    given = [];
    left = [];
    kept = [];
    whole = refl;
    result = on_short (drain utf8 max fuel) frames [] _ (short_header utf8 max [] (omega arith));
    remains = sym e ∙ s;
    no_more = λ z. refl;
  }
  drain-Drained (suc fuel) [] bs (x ∷ b) rest frames s e h = absurd (cc)
  drain-Drained (suc fuel) (f ∷ fs) bs b rest frames (front, tail, cut, enc, more) e h =
      elim (Bool-cases (leb (length front) (length b))) [
        | inl fits ↦
            let (ds, p, q) = cut_front front tail b rest (sym cut ∙ e) (leb→le _ _ fits) in
            drain_step f fs frames rest
              (on_took (drain utf8 max fuel) frames b f ds _
                (rw p (take_whole utf8 max f.tag f.payload front ds enc.bytes enc.allowed)))
              (drain-Drained fuel fs tail ds rest (frames ++ f ∷ []) more q (
                omega (
                  arith,
                  ap length p,
                  length-append front ds,
                  length-encode utf8 f.tag f.payload front enc.bytes,
                  h,
                )))
        | inr over ↦
            let (ds, p, q) = cut_front b rest front tail (sym e ∙ cut) (ground (arith, over)) in
            let beyond : 0 < length ds = ground (arith, ap length p, length-append b ds, over) in
            record {
              given = [];
              left = f ∷ fs;
              kept = b;
              whole = refl;
              result =
                  on_short (drain utf8 max fuel) frames b _
                    (take_part utf8 max f.tag f.payload front b ds enc.bytes enc.allowed p beyond);
              remains = (front, tail, sym e ∙ cut, enc, more);
              no_more = λ z. absurd (omega (arith, ap length q, length-append ds tail, z, beyond));
            }
      ]

  feed_all-frames :
      (chunks : List (List ℕ)) (fs : List NexusFrame) (buf : List ℕ) (frames : List NexusFrame)
      → Stream utf8 max fs (buf ++ joined chunks)
      → (length (joined chunks) ≡ 0 → fs ≡ [])
      → feed_all chunks buf frames ≡ some (ok (frames ++ fs), [])
  unfolding feed_all feed
  feed_all-frames [] fs buf frames s z =
      let e = z refl in
      let emptied : buf ++ [] ≡ [] = subst (λ l. Stream utf8 max l (buf ++ [])) e s in
      rw (e, append-nil, sym (append-nil buf) ∙ emptied)
  feed_all-frames (c ∷ cs) fs buf frames s z =
      let d =
        drain-Drained (suc (length (buf ++ c))) fs (buf ++ (c ++ joined cs)) (buf ++ c) (joined cs)
          [] s (sym (append_assoc buf c (joined cs))) (omega arith) in
      rw d.result (
        feed_all-frames cs d.left d.kept (frames ++ d.given) d.remains d.no_more
        ∙ ap (λ l. some (ok l, []))
            (append_assoc frames d.given d.left ∙ ap (λ l. frames ++ l) (sym d.whole)))

  none_of_nothing :
      (fs : List NexusFrame) (bs : List ℕ) → Stream utf8 max fs bs → length bs ≡ 0 → fs ≡ []
  none_of_nothing [] bs s z = refl
  none_of_nothing (f ∷ fs) bs (e, tail, cut, enc, more) z = absurd (
      omega (
        arith,
        ap length cut,
        length-append e tail,
        length-encode utf8 f.tag f.payload e enc.bytes,
        z,
      ))

  -- However the bytes of a sequence of encoded frames are cut into chunks, feeding the chunks to a
  -- new decoder raises nothing, gives exactly those frames in their order, and leaves no byte.
  pub feed_all-encode :
      (fs : List NexusFrame) (chunks : List (List ℕ))
      → Stream utf8 max fs (joined chunks)
      → feed_all chunks [] [] ≡ some (ok fs, [])
  feed_all-encode fs chunks s =
      feed_all-frames chunks fs [] [] s (none_of_nothing fs (joined chunks) s)
