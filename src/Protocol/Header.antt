-- ===== src/Protocol/Header.antt =====
-- What a client reads in the header of a response.
use rhyda.Prelude.{
  ℕ, ◌+◌, ◌<◌, ◌^◌, ◌≡◌, refl, ◌∙◌, ap, ◌∷◌, ◌++◌, length, length-append, take, drop, drop-drop,
  none, some, arith,
}
use rhyda.Prelude.Int.{ℤ, wrap, signed, Fits, wrap-lt, signed-wrap}
use rhyda.Prelude.Bytes.{Bytes, to_be, from_be, take-to_be, drop-to_be, from_be-to_be, length-to_be}
use rhyda.Protocol.Frames.{Wire, Opcode, response_frame}

-- The fields of a frame's header, and what follows it.
abbrev pub stream_of : Bytes → ℤ
stream_of frame = signed (2 ^ 16) (from_be (take 2 (drop 2 frame)))

abbrev pub length_of : Bytes → ℕ
length_of frame = from_be (take 4 (drop 5 frame))

module _ (wire : Wire) (opcode_byte : Opcode → ℕ) where
  -- An uncompressed answer with a body below 2 ^ 32 bytes is 9 bytes and the body: the stream id is
  -- that of the request, and the length field is the length of the body.
  pub response_frame-header :
      (version : ℕ) (stream : ℤ) (opcode : Opcode) (body : Bytes)
      → Fits (2 ^ 16) stream
      → length body < 2 ^ 32
      → (frame : Bytes) × (response_frame wire opcode_byte
            (record { version = version; stream = stream; compression = none })
            opcode
            body
          ≡ some frame)
        × (stream_of frame ≡ stream)
        × (length_of frame ≡ length body)
        × (drop 9 frame ≡ body)
        × (length frame ≡ 9 + length body)
  unfolding response_frame
  response_frame-header version stream opcode body fits small =
      let w = wrap (2 ^ 16) stream in
      let n = to_be 4 (length body) in
      let tail : Bytes = opcode_byte opcode ∷ (n ++ body) in
      let skip : (k : ℕ) → drop (2 + k) (to_be 2 w ++ tail) ≡ drop k tail =
        λ k. drop-drop 2 k (to_be 2 w ++ tail) ∙ ap (drop k) (drop-to_be 2 w tail) in
      (
        _,
        refl,
        rw (take-to_be 2 w tail) (
            rw (from_be-to_be 2 w (wrap-lt (2 ^ 16) stream (omega arith)))
              (signed-wrap (2 ^ 16) stream fits)),
        rw (skip 1) (rw (take-to_be 4 (length body) body) (from_be-to_be 4 (length body) small)),
        skip 5 ∙ drop-to_be 4 (length body) body,
        omega (
          arith,
          length-append (to_be 2 w) tail,
          length-append n body,
          length-to_be 2 w,
          length-to_be 4 (length body),
        ),
      )
