-- ===== src/Windows/Frames/Chunks.antt =====
-- Frames that arrive in parts, in crates/zonkey-win/src/pipe_transport.rs.
use zon_key.Prelude.{
  ℕ, ◌≤◌, ◌<◌, ◌≡◌, inl, inr, refl, sym, ap, ◌∙◌, subst, true, false, Option, none, some, List, [],
  ◌∷◌, ◌++◌, length, take, drop, ok, arith, ltb, Bool-cases, Option-cases, length-append,
  append_assoc,
}
use zon_key.Text.{Str, all}
use zon_key.Text.Utf8.{is_scalar}
use zon_key.Transport.Frame.{
  Frame, encode_frame, decode_frame, decode_frame-encode_frame, decode_frame-part,
}
use zon_key.Windows.Frames.{
  PipeEvent, peek_fails, read_fails, idle, chunk, frame, Reading, read_frame_stop_aware,
}

-- The bytes that arrive, where nothing fails and the server is not stopped.
unfoldable pub arriving : List PipeEvent → Option (List ℕ)
arriving [] = some []
arriving (idle false ∷ es) = arriving es
arriving (chunk (b ∷ bytes) ∷ es) = elim (arriving es) [
  | none ↦ none
  | some rest ↦ some ((b ∷ bytes) ++ rest)
]
arriving (e ∷ es) = none

-- The server has read the payload, and what follows it is still to come.
pub record HasRead (payload : Str) (rest : List ℕ) (o : Option Reading) : Type 0 where
  pub buffer : List ℕ
  pub events : List PipeEvent
  pub bytes : List ℕ
  pub reading : o ≡ some (frame (record { payload = payload }), buffer, events)
  pub arrive : arriving events ≡ some bytes
  pub all_kept : buffer ++ bytes ≡ rest

-- Two ways to cut one text: the shorter front is a part of the longer one.
front_longer :
    (xs ys us vs : List ℕ)
    → xs ++ ys ≡ us ++ vs
    → length us ≤ length xs
    → (xs ≡ us ++ drop (length us) xs) × (drop (length us) xs ++ ys ≡ vs)
front_longer xs ys [] vs e h = (refl, e)
front_longer [] ys (u ∷ us) vs e h = absurd (omega arith)
front_longer (x ∷ xs) ys (u ∷ us) vs e h =
    let tails : xs ++ ys ≡ us ++ vs = cc in
    let heads : x ≡ u = cc in
    let (a, b) = front_longer xs ys us vs tails (omega arith) in
    (ap (λ c. c ∷ xs) heads ∙ ap (◌∷◌ u) a, b)

front_shorter :
    (xs ys us vs : List ℕ) → xs ++ ys ≡ us ++ vs → length xs < length us → xs ≡ take (length xs) us
front_shorter [] ys us vs e h = refl
front_shorter (x ∷ xs) ys [] vs e h = absurd (omega arith)
front_shorter (x ∷ xs) ys (u ∷ us) vs e h =
    let tails : xs ++ ys ≡ us ++ vs = cc in
    let heads : x ≡ u = cc in
    ap (λ c. c ∷ xs) heads ∙ ap (◌∷◌ u) (front_shorter xs ys us vs tails (omega arith))

read_whole :
    (es : List PipeEvent) (buffer left : List ℕ) (f : Frame)
    → decode_frame buffer ≡ (left, ok (some f))
    → read_frame_stop_aware es buffer ≡ some (frame f, left, es)
unfolding read_frame_stop_aware
read_whole [] buffer left f d = ground (arith, d)
read_whole (e ∷ es) buffer left f d = ground (arith, d)

read_idle :
    (es : List PipeEvent) (buffer : List ℕ)
    → decode_frame buffer ≡ (buffer, ok none)
    → read_frame_stop_aware (idle false ∷ es) buffer ≡ read_frame_stop_aware es buffer
unfolding read_frame_stop_aware
read_idle es buffer d = ground (arith, d)

read_chunk :
    (es : List PipeEvent) (buffer : List ℕ) (b : ℕ) (bytes : List ℕ)
    → decode_frame buffer ≡ (buffer, ok none)
    → read_frame_stop_aware (chunk (b ∷ bytes) ∷ es) buffer
      ≡ read_frame_stop_aware es (buffer ++ b ∷ bytes)
unfolding read_frame_stop_aware
read_chunk es buffer b bytes d = ground (arith, d)

module _ (payload : Str) (whole : List ℕ) (encodes : encode_frame payload ≡ ok whole)
    (valid : all is_scalar payload ≡ true) where
  read_done :
      (es : List PipeEvent) (buffer bytes rest : List ℕ)
      → arriving es ≡ some bytes
      → buffer ++ bytes ≡ whole ++ rest
      → length whole ≤ length buffer
      → HasRead payload rest (read_frame_stop_aware es buffer)
  read_done es buffer bytes rest a e h =
      let (front, back) = front_longer buffer bytes whole rest e h in
      record {
        buffer = drop (length whole) buffer;
        events = es;
        bytes = bytes;
        reading = read_whole es buffer (drop (length whole) buffer) _ (
            ap decode_frame front
            ∙ decode_frame-encode_frame payload whole (drop (length whole) buffer) valid encodes);
        arrive = a;
        all_kept = back;
      }

  read_part :
      (buffer bytes rest : List ℕ)
      → buffer ++ bytes ≡ whole ++ rest
      → length buffer < length whole
      → decode_frame buffer ≡ (buffer, ok none)
  read_part buffer bytes rest e h =
      let front = front_shorter buffer bytes whole rest e h in
      subst (λ b. decode_frame b ≡ (b, ok none)) (sym front)
        (decode_frame-part payload whole (length buffer) encodes h)

  -- However the bytes of an encoded frame, of a payload of scalar values, arrive, in chunks and
  -- with pauses between them, the server reads the payload, and loses nothing of what follows it;
  -- if nothing fails and the server is not stopped.
  pub read_frame_stop_aware-HasRead :
      (es : List PipeEvent) (buffer bytes rest : List ℕ)
      → arriving es ≡ some bytes
      → buffer ++ bytes ≡ whole ++ rest
      → HasRead payload rest (read_frame_stop_aware es buffer)
  unfolding arriving
  read_frame_stop_aware-HasRead [] buffer bytes rest a e =
      read_done [] buffer bytes rest a e
        (ground (arith, ap length e, length-append buffer bytes, length-append whole rest))
  read_frame_stop_aware-HasRead (idle false ∷ es) buffer bytes rest a e =
      elim (Bool-cases (ltb (length buffer) (length whole))) [
        | inl p ↦
            subst (HasRead payload rest)
              (sym (read_idle es buffer (read_part buffer bytes rest e (ground arith))))
              (read_frame_stop_aware-HasRead es buffer bytes rest a e)
        | inr p ↦ read_done (idle false ∷ es) buffer bytes rest a e (ground arith)
      ]
  read_frame_stop_aware-HasRead (chunk (b ∷ cs) ∷ es) buffer bytes rest a e =
      elim (Bool-cases (ltb (length buffer) (length whole))) [
        | inl p ↦ elim (Option-cases (arriving es)) [
          | inl n ↦ absurd (ground (arith, n))
          | inr (more, n) ↦
              let same : bytes ≡ (b ∷ cs) ++ more = ground (arith, n) in
              subst (HasRead payload rest)
                (sym (read_chunk es buffer b cs (read_part buffer bytes rest e (ground arith))))
                (read_frame_stop_aware-HasRead es (buffer ++ b ∷ cs) more rest n
                  (append_assoc buffer (b ∷ cs) more ∙ ap (λ x. buffer ++ x) (sym same) ∙ e))
        ]
        | inr p ↦ read_done (chunk (b ∷ cs) ∷ es) buffer bytes rest a e (ground arith)
      ]
  read_frame_stop_aware-HasRead (chunk [] ∷ es) buffer bytes rest a e = absurd (cc)
  read_frame_stop_aware-HasRead (idle true ∷ es) buffer bytes rest a e = absurd (cc)
  read_frame_stop_aware-HasRead (peek_fails ∷ es) buffer bytes rest a e = absurd (cc)
  read_frame_stop_aware-HasRead (read_fails ∷ es) buffer bytes rest a e = absurd (cc)
