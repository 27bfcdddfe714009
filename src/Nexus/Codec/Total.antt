-- ===== src/Nexus/Codec/Total.antt =====
-- The decoder's loop ends on every input, malformed input included.
use civ_sim_taskify.Prelude.{
  String, if_both, ltb, leb, ℕ, zero, suc, ◌+◌, ◌≤◌, ◌<◌, ◌≡◌, refl, Option, none, some, List, [],
  ◌∷◌, ◌++◌, length, length-drop, drop, ap, arith,
}
use civ_sim_taskify.Prelude.Int.{ℤ}
use civ_sim_taskify.Errors.{Result, ok, err}
use civ_sim_taskify.Nexus.Codec.{
  Utf8, NexusFrame, Taken, short, fault, took, try_take_one, decode_body, decode_payload, on_taken,
  drain, feed, word_at,
}

module _ (utf8 : Utf8) (max : ℕ) where
  -- What a step leaves, when it took a frame.
  Leaves : List ℕ → Taken → Type 0
  Leaves rest short = Unit
  Leaves rest (fault e r) = Unit
  Leaves rest (took f r) = r ≡ rest

  payload-Leaves :
      (tag : ℤ) (rest : List ℕ) (o : Result String) → Leaves rest (decode_payload utf8 tag rest o)
  unfolding Leaves
  payload-Leaves tag rest (ok s) = refl
  payload-Leaves tag rest (err e) = tt

  body-Leaves :
      (tag : ℤ) (rest : List ℕ) (o : Option (List ℕ)) → Leaves rest (decode_body utf8 tag rest o)
  unfolding Leaves
  body-Leaves tag rest none = tt
  body-Leaves tag rest (some bytes) = payload-Leaves tag rest (utf8.decode bytes)

  -- A frame that was taken leaves fewer bytes.
  abbrev Shrinks : List ℕ → Taken → Type 0
  Shrinks buf short = Unit
  Shrinks buf (fault e r) = Unit
  Shrinks buf (took f r) = length r < length buf

  Shrinks-of_Leaves :
      (buf : List ℕ) (t : Taken)
      → Leaves (drop (8 + word_at buf 0) buf) t
      → 8 ≤ length buf
      → Shrinks buf t
  unfolding Leaves
  Shrinks-of_Leaves buf short l h = tt
  Shrinks-of_Leaves buf (fault x r) l h = tt
  Shrinks-of_Leaves buf (took g r) l h =
      omega (arith, ap length l, length-drop (8 + word_at buf 0) buf)

  try_take_one-Shrinks : (buf : List ℕ) → Shrinks buf (try_take_one utf8 max buf)
  unfolding try_take_one
  try_take_one-Shrinks buf =
      if_both (Shrinks buf) (ltb (length buf) 8) (λ _. tt)
        (λ long.
          if_both (Shrinks buf) (leb (word_at buf 0) 0) (λ _. tt)
            (λ _.
              if_both (Shrinks buf) (ltb max (word_at buf 0)) (λ _. tt)
                (λ _.
                  if_both (Shrinks buf) (ltb (length buf) (8 + word_at buf 0)) (λ _. tt)
                    (λ _. Shrinks-of_Leaves buf _ (body-Leaves _ _ _) (ground (arith, long))))))

  step_total :
      (again : List ℕ → List NexusFrame → Option (Result (List NexusFrame) × List ℕ))
      (frames : List NexusFrame) (buf : List ℕ) (t : Taken)
      → Shrinks buf t
      → ((rest : List ℕ) (new : List NexusFrame)
          → length rest < length buf
          → (o : Result (List NexusFrame) × List ℕ) × (again rest new ≡ some o))
      → (o : Result (List NexusFrame) × List ℕ) × (on_taken utf8 again frames buf t ≡ some o)
  step_total again frames buf short s more = ((ok frames, buf), refl)
  step_total again frames buf (fault e rest) s more = ((err e, rest), refl)
  step_total again frames buf (took f rest) s more = more rest (frames ++ f ∷ []) s

  drain_total :
      (fuel : ℕ) (buf : List ℕ) (frames : List NexusFrame)
      → length buf < fuel
      → (o : Result (List NexusFrame) × List ℕ) × (drain utf8 max fuel buf frames ≡ some o)
  unfolding drain
  drain_total zero buf frames h = elim h [ ]
  drain_total (suc fuel) buf frames h =
      step_total (drain utf8 max fuel) frames buf (try_take_one utf8 max buf)
        (try_take_one-Shrinks buf) (λ rest new less. drain_total fuel rest new (omega arith))

  -- The loop of `feed` ends, with frames or with an exception, whatever bytes it is given.
  pub feed_total :
      (buf new : List ℕ)
      → (o : Result (List NexusFrame) × List ℕ) × (feed utf8 max buf new ≡ some o)
  unfolding feed
  feed_total buf new = drain_total (suc (length (buf ++ new))) (buf ++ new) [] (omega arith)
