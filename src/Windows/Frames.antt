-- ===== src/Windows/Frames.antt =====
-- How the server of crates/zonkey-win/src/pipe_transport.rs reads a frame from the pipe. What the pipe
-- does, round by round of the loop, is a list of events; the loop waits where they run out.
pub mod Chunks
use zon_key.Prelude.{
  ℕ, Bool, true, false, Option, none, some, List, [], ◌∷◌, ◌++◌, Result, ok, err, if◌then◌else◌,
}
use zon_key.Transport.Frame.{Frame, FrameError, decode_frame}

-- One round of the loop: PeekNamedPipe fails; it reports nothing, with the flag to stop; ReadFile fails;
-- or it reads some bytes.
pub data PipeEvent : Type 0 where
  peek_fails read_fails : PipeEvent
  idle : Bool → PipeEvent
  chunk : List ℕ → PipeEvent

pub data ServeRead : Type 0 where
  frame : Frame → ServeRead
  stopped closed : ServeRead

-- The result, the buffer, and the events that are left.
abbrev pub Reading : Type 0
Reading = ServeRead × List ℕ × List PipeEvent

unfoldable pub read_frame_stop_aware : List PipeEvent → List ℕ → Option Reading
read_frame_stop_aware [] buffer = elim (decode_frame buffer).1 [
  | err e ↦ some (closed, buffer, [])
  | ok none ↦ none
  | ok (some f) ↦ some (frame f, (decode_frame buffer).0, [])
]
read_frame_stop_aware (e ∷ es) buffer = elim (decode_frame buffer).1 [
  | err x ↦ some (closed, buffer, e ∷ es)
  | ok (some f) ↦ some (frame f, (decode_frame buffer).0, e ∷ es)
  | ok none ↦ elim e [
    | peek_fails ↦ some (closed, buffer, es)
    | read_fails ↦ some (closed, buffer, es)
    | idle true ↦ some (stopped, buffer, es)
    | idle false ↦ read_frame_stop_aware es buffer
    | chunk [] ↦ some (closed, buffer, es)
    | chunk (b ∷ bytes) ↦ read_frame_stop_aware es (buffer ++ b ∷ bytes)
  ]
]
