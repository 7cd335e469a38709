-- ===== src/Frame/Tests.antt =====
-- Runs of WebSocketHandler.cpp, and the theorems about it at inputs that meet their hypotheses.
use my_testserver.Prelude.{
  ◌+◌, ◌≤◌, ◌≡◌, refl, inl, true, some, none, [], ◌∷◌, ◌++◌, arith, length, get_or, take, Bytes,
  codes,
}
use my_testserver.Frame.{Frame, parsed, rejected, encode_frame, parse_frame, unmask}
use my_testserver.Frame.Wire.{wire}
use my_testserver.Frame.Parse.{encode_frame-wire, parse_frame-wire}
use my_testserver.Frame.Stream.{parse_frame_bounds, parse_frame-prefix}
use my_testserver.Frame.Faults.{unmasked_needs_zero_key}

abbrev zeros : Bytes
zeros = 0 ∷ 0 ∷ 0 ∷ 0 ∷ []

abbrev key : Bytes
key = 0x37 ∷ 0xfa ∷ 0x21 ∷ 0x3d ∷ []

-- "Hello" of RFC 6455, section 5.7.
abbrev hello : Bytes
hello = codes "Hello"

abbrev hello_frame : Bytes
hello_frame = 0x81 ∷ 0x85 ∷ 0x37 ∷ 0xfa ∷ 0x21 ∷ 0x3d ∷ 0x7f ∷ 0x9f ∷ 0x4d ∷ 0x51 ∷ 0x58 ∷ []

abbrev hello_parsed : Frame
hello_parsed = record { message = hello; frame_len = 11; opcode = 1; fin = true }

wire-hello : wire true 1 (some key) hello ≡ hello_frame
unfolding unmask
wire-hello = refl

parse-hello : parse_frame zeros hello_frame ≡ parsed hello_parsed
unfolding parse_frame
parse-hello = refl

encode-hello : encode_frame hello ≡ 0x81 ∷ 0x05 ∷ hello
unfolding encode_frame
encode-hello = refl

encode_frame-wire_example : encode_frame hello ≡ wire true 1 none hello
encode_frame-wire_example = encode_frame-wire hello (omega arith)

parse_frame-wire_example :
    parse_frame zeros (wire true 1 (some key) hello ++ (7 ∷ [])) ≡ parsed hello_parsed
parse_frame-wire_example =
    parse_frame-wire zeros true 1 (some key) hello (7 ∷ []) (inl refl) refl (omega arith)

parse_frame_bounds_example : (11 ≤ length hello_frame) × (2 + length hello ≤ 11)
parse_frame_bounds_example = parse_frame_bounds zeros hello_frame hello_parsed parse-hello

parse_frame-prefix_example : parse_frame zeros (take 10 (wire true 1 (some key) hello)) ≡ rejected
parse_frame-prefix_example =
    parse_frame-prefix zeros true 1 (some key) hello 10 (inl refl) refl (omega arith) (omega arith)

abbrev hello_unmasked : Frame
hello_unmasked = record { message = hello; frame_len = 7; opcode = 1; fin = true }

parse-unmasked : parse_frame zeros (encode_frame hello ++ []) ≡ parsed hello_unmasked
unfolding parse_frame encode_frame
parse-unmasked = refl

unmasked_needs_zero_key_example : get_or zeros 2 0 ≡ 0
unmasked_needs_zero_key_example =
    unmasked_needs_zero_key zeros hello [] hello_unmasked (omega arith) parse-unmasked refl 2
      (omega arith)
