-- ===== src/Examples/Frames.antt =====
-- A run of the frames.
use rhyda.Prelude.{ℕ, ◌≡◌, ◌++◌, length, drop, none, some, arith}
use rhyda.Prelude.Int.{negsuc}
use rhyda.Prelude.Bytes.{Bytes, codes, to_be}
use rhyda.Protocol.Frames.{Wire, Opcode, error, ready, result, supported, response_frame}
use rhyda.Protocol.Header.{stream_of, length_of, response_frame-header}

-- The writers of the protocol, without compression; a string multimap is left out of the run.
abbrev plain_wire : Wire
plain_wire = record {
  Compression = Unit {0};
  compress = λ c b. none;
  string = λ s. some (to_be 2 (length s) ++ s);
  short_bytes = λ s. some (to_be 2 (length s) ++ s);
  bytes = λ s. some (to_be 4 (length s) ++ s);
  string_multimap = λ m. none;
}

abbrev pub opcodes : Opcode → ℕ
opcodes error = 0x00
opcodes ready = 0x02
opcodes result = 0x08
opcodes supported = 0x06

response_frame-header_example :
    (frame : Bytes) × (response_frame plain_wire opcodes
        (record { version = 4; stream = negsuc 2; compression = none })
        Opcode.result
        (codes "body")
      ≡ some frame)
    × (stream_of frame ≡ negsuc 2)
    × (length_of frame ≡ 4)
    × (drop 9 frame ≡ codes "body")
    × (length frame ≡ 13)
response_frame-header_example =
    response_frame-header plain_wire opcodes 4 (negsuc 2) Opcode.result (codes "body") (omega arith)
      (omega arith)
