-- ===== src/Connection/Receive.antt =====
-- src/server.rs: a round of the loop of `handle_connection`, from the header of a frame to its answer.
-- The rounds are taken one after the other; that the answers of several QUERY and EXECUTE requests can
-- overtake each other is not modelled.
use rhyda.Prelude.{ℕ, ◌*◌, ◌%◌, not, ltb, ◌==◌, if◌then◌else◌, Option, none, some, ok, err, panic}
use rhyda.Prelude.Int.{ℤ, pos}
use rhyda.Prelude.Bytes.{Bytes}
use rhyda.Schema.Idents.{CaseMap}
use rhyda.Value.Literal.{Parsers}
use rhyda.Query.Errors.{QueryError, Reason, bad_version, frame_too_large, not_negotiated}
use rhyda.Protocol.Frames.{error_frame}
use rhyda.Connection.Handle.{Env, Frame, State, Handled, compression_of, handle_request}

abbrev pub max_frame_length : ℕ
max_frame_length = 64 * 1024 * 1024

-- The header of a frame.
pub record Header : Type 0 where
  pub version : ℕ
  pub flags : ℕ
  pub stream : ℤ
  pub opcode : ℕ
  pub length : ℕ

-- What a round comes to: an answer after which the loop goes on, a last answer, the end of the
-- connection without one, or a panic.
pub data Turn : Type 0 where
  answered : Bytes → Turn
  closed : Bytes → Turn
  dropped : Turn
  died : Turn

module _ (env : Env) ⦃cases : CaseMap⦄ ⦃parsers : Parsers⦄
    (decompress : env.wire.Compression → Bytes → Option Bytes) where
  abbrev error_of : Frame env → QueryError → Option Bytes
  error_of t e =
      error_frame env.wire env.requests.opcode_byte t (pos e.code) (env.text_of e.message)

  abbrev framed_or_died : (Bytes → Turn) → Option Bytes → Turn
  framed_or_died f none = died
  framed_or_died f (some frame) = f frame

  abbrev refused : Reason → QueryError
  refused reason = record { code = 0x000A; message = reason }

  abbrev handled : Header → Handled env → Turn × State env
  handled h (ok frame, st) = (answered frame, st)
  handled h (err e, st) = (
    framed_or_died answered (
        error_of
          (record {
            version = h.version;
            stream = h.stream;
            compression = compression_of env st.conn;
          })
          e),
    st,
  )
  handled h (panic, st) = (died, st)

  abbrev unpacked : Header → Option Bytes → State env → Turn × State env
  unpacked h none st = (dropped, st)
  unpacked h (some body) st = handled h (handle_request env h.opcode body h.stream st)

  abbrev packed : Header → Bytes → Option env.wire.Compression → State env → Turn × State env
  packed h body none st = (
    framed_or_died answered (
        error_of (record { version = h.version; stream = h.stream; compression = none })
          (refused not_negotiated)),
    st,
  )
  packed h body (some comp) st = unpacked h (decompress comp body) st

  unfoldable pub receive : Header → Bytes → State env → Turn × State env
  unfolding handle_request
  receive h body st =
      if not (h.version == 0x04)
      then (
        framed_or_died closed (
            error_of (record { version = h.version; stream = h.stream; compression = none })
              (refused bad_version)),
        st,
      )
      else if ltb max_frame_length h.length
      then (
        framed_or_died closed (
            error_of
              (record {
                version = h.version;
                stream = h.stream;
                compression = compression_of env st.conn;
              })
              (refused frame_too_large)),
        st,
      )
      else if h.flags % 2 == 1
      then packed h body (compression_of env st.conn) st
      else unpacked h (some body) st
