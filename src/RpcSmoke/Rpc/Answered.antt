-- ===== src/RpcSmoke/Rpc/Answered.antt =====
-- A call and its answer, through every layer of the tool.
use Prim.Native.Nat.{bit_or}
use rp2350_relay_6ch.Prelude.{
  ℕ, ◌+◌, ◌*◌, ◌/◌, ◌%◌, ◌^◌, ◌<◌, ◌≡◌, refl, sym, ap, ◌∙◌, String, Bool, true, false, Option, none,
  some, Bytes, List, ◌∷◌, ◌++◌, length, ◌==◌, ◌||◌, not, if◌then◌else◌, arith, Bool-cases, inl, inr,
}
use rp2350_relay_6ch.Errors.{Exc, Result, ok, err}
use rp2350_relay_6ch.Action.{went_on}
use rp2350_relay_6ch.Value.{Python, obj, Fields}
use rp2350_relay_6ch.RpcSmoke.Cbor.{Utf8, encode_map}
use rp2350_relay_6ch.RpcSmoke.Cbor.Reader.{decode_map}
use rp2350_relay_6ch.RpcSmoke.Cbor.RoundTrip.{IsKeyed, decode_map-encode_map}
use rp2350_relay_6ch.RpcSmoke.Frames.{Base64, serial_frame, decoded_frames}
use rp2350_relay_6ch.RpcSmoke.Frames.Lines.{IsBase64, AllNoise}
use rp2350_relay_6ch.RpcSmoke.Frames.RoundTrip.{decoded_frames-serial_frame}
use rp2350_relay_6ch.RpcSmoke.Rpc.{
  Port, group_relay, encode_smp, expected_op, body_of, check_response, write_frame, call,
}

-- the packets of the tool in the layout of the header
abbrev pub Heads : ℕ → ℕ → Bytes → Bytes → Type 0
Heads op command (first ∷ flags ∷ n1 ∷ n0 ∷ g1 ∷ g0 ∷ seq ∷ rsp_command ∷ rest) body =
    (first / 2 ^ 3 % 4 ≡ 1)
    × (first % 8 ≡ op)
    × (n1 * 256 + n0 ≡ length body)
    × (g1 * 256 + g0 ≡ 64)
    × (seq ≡ 1)
    × (rsp_command ≡ command)
    × (rest ≡ body)
Heads op command _ body = ⊥

-- the first byte of a response
first_byte : (op : ℕ) → bit_or (expected_op op) 8 ≡ expected_op op + 8
unfolding expected_op
first_byte op = elim (Bool-cases (op == 0)) [ inl h ↦ rw h refl | inr h ↦ rw h refl ]

expected_op_lt : (op : ℕ) → expected_op op < 8
unfolding expected_op
expected_op_lt op = ground arith

encode_smp-eq :
    (op command : ℕ) (body packet : Bytes)
    → encode_smp op group_relay command 1 body ≡ ok packet
    → packet ≡ bit_or op 8 ∷ 0 ∷ length body / 256 ∷ length body % 256 ∷ 0 ∷ 64 ∷ 1 ∷ command ∷ body
unfolding encode_smp
encode_smp-eq op command body packet e = ground (arith, e)

encode_smp-Heads :
    (op command : ℕ) (body response : Bytes)
    → encode_smp (expected_op op) group_relay command 1 body ≡ ok response
    → Heads (expected_op op) command response body
encode_smp-Heads op command body response e =
    rw (encode_smp-eq (expected_op op) command body response e, first_byte op)
      (
        omega (arith, expected_op_lt op),
        omega (arith, expected_op_lt op),
        omega arith,
        refl,
        refl,
        refl,
        refl,
      )

-- a test that raises, or not
pass_test {ℓ} : {A : Type ℓ} (b : Bool) (x y : A) → b ≡ false → (if b then x else y) ≡ y
pass_test b x y h = rw h refl

test_passed :
    (b : Bool) (e : Exc) (r : Result Fields) (a : Fields)
    → (if b then err e else r) ≡ ok a
    → (b ≡ false) × (r ≡ ok a)
test_passed true e r a h = cc
test_passed false e r a h = (refl, h)

differs : (a b : ℕ) → a ≡ b → not (a == b) ≡ false
differs a b h = ground arith

same : (a b : ℕ) → not (a == b) ≡ false → a ≡ b
same a b h = ground arith

false_or : (a b : Bool) → a ≡ false → b ≡ false → (a || b) ≡ false
false_or a b h k = rw (h, k) refl

or_false : (a b : Bool) → (a || b) ≡ false → (a ≡ false) × (b ≡ false)
or_false false b h = (refl, h)
or_false true b h = cc

module _ (py : Python) (utf8 : Utf8) where
  check_response-Heads :
      (op command : ℕ) (response body : Bytes)
      → Heads op command response body
      → check_response py utf8 op command response ≡ body_of (decode_map py utf8 body)
  unfolding check_response
  check_response-Heads op command (first ∷ flags ∷ n1 ∷ n0 ∷ g1 ∷ g0 ∷ seq ∷ rsp_command ∷ rest)
        body (v, o, n, g, s, c, r) =
      pass_test _ _ _ (differs (first / 2 ^ 3 % 4) 1 v)
      ∙ pass_test _ _ _ (differs (first % 8) op o)
      ∙ pass_test _ _ _ (differs (n1 * 256 + n0) (length rest) (n ∙ ap length (sym r)))
      ∙ pass_test _ _ _ (
          false_or _ _ (false_or _ _ (differs (g1 * 256 + g0) 64 g) (differs seq 1 s))
            (differs rsp_command command c))
      ∙ ap (λ b. body_of (decode_map py utf8 b)) r
  check_response-Heads op command _ body h = elim h [ ]

  body_of-eq-ok :
      (r : Option (Result Fields)) (answer : Fields) → body_of r ≡ ok answer → r ≡ some (ok answer)
  unfolding body_of
  body_of-eq-ok none answer h = cc
  body_of-eq-ok (some r) answer h = ap some h

  Heads-check_response :
      (op command : ℕ) (response : Bytes) (answer : Fields)
      → check_response py utf8 op command response ≡ ok answer
      → (body : Bytes) × Heads op command response body
        × (decode_map py utf8 body ≡ some (ok answer))
  unfolding check_response
  Heads-check_response op command (first ∷ flags ∷ n1 ∷ n0 ∷ g1 ∷ g0 ∷ seq ∷ rsp_command ∷ rest)
        answer e =
      let (v, e1) = test_passed _ _ _ answer e in
      let (o, e2) = test_passed _ _ _ answer e1 in
      let (n, e3) = test_passed _ _ _ answer e2 in
      let (t, e4) = test_passed _ _ _ answer e3 in
      let (gs, c) = or_false _ _ t in
      let (g, s) = or_false _ _ gs in
      (
        rest,
        (
          same (first / 2 ^ 3 % 4) 1 v,
          same (first % 8) op o,
          same (n1 * 256 + n0) (length rest) n,
          same (g1 * 256 + g0) 64 g,
          same seq 1 s,
          same rsp_command command c,
          refl,
        ),
        body_of-eq-ok _ answer e4,
      )
  Heads-check_response op command _ answer e = cc

  module _ (base64 : Base64) (port : Port) where
    -- the frame of a request
    abbrev pub Requests : ℕ → ℕ → Fields → Bytes → Type 0
    Requests command op payload frame =
        (encoded : Bytes) × (request : Bytes) × (encode_map py utf8 payload ≡ ok encoded)
        × (encode_smp op group_relay command 1 encoded ≡ ok request)
        × (serial_frame base64 request ≡ ok frame)

    -- A call that returns has written one frame, that of its request. The lines it was answered
    -- with hold a packet whose version, op, length, group, sequence number and command are those
    -- that the request is to be answered with, and the result is the map in its body.
    pub call_checked :
        (command op : ℕ) (payload answer : Fields) (frames frames' : List Bytes)
        → call py utf8 base64 port command op payload frames ≡ (ok answer, frames')
        → (frame : Bytes) × (lines : List Bytes) × (response : Bytes) × (body : Bytes) × Requests
            command op payload frame
          × (frames' ≡ frame ∷ frames)
          × (port.answer frames frame ≡ ok lines)
          × (decoded_frames base64 lines "timed out waiting for SMP response" ≡ ok response)
          × Heads (expected_op op) command response body
          × (decode_map py utf8 body ≡ some (ok answer))
    unfolding call write_frame
    call_checked command op payload answer frames frames' e =
        went_on (encode_map py utf8 payload) _ frames e (λ encoded p1 q1.
          went_on (encode_smp op group_relay command 1 encoded) _ frames q1 (λ request p2 q2.
            went_on (serial_frame base64 request) _ frames q2 (λ frame p3 q3.
              went_on (port.answer frames frame) _ (frame ∷ frames) q3 (λ lines p4 q4.
                went_on (decoded_frames base64 lines "timed out waiting for SMP response") _
                  (frame ∷ frames) q4
                  (λ response p5 q5.
                    let (body, heads, read) =
                      Heads-check_response (expected_op op) command response answer
                        (ap (λ r. r.0) q5) in
                    (
                      frame,
                      lines,
                      response,
                      body,
                      (encoded, request, p1, p2, p3),
                      sym (ap (λ r. r.1) q5),
                      p4,
                      p5,
                      heads,
                      read,
                    ))))))

    -- A request of a call is the frame of its packet; a port that answers it with a map, in a
    -- frame before which stand only lines that are not empty and have no marker of a frame, makes
    -- the call return this map.
    pub call_answered :
        IsBase64 base64
        → ((s : String) → utf8.decode (utf8.encode s) ≡ some s)
        → (command op : ℕ) (payload answer : Fields) (frames before after : List Bytes)
          (encoded request frame body response line : Bytes)
        → encode_map py utf8 payload ≡ ok encoded
        → encode_smp op group_relay command 1 encoded ≡ ok request
        → serial_frame base64 request ≡ ok frame
        → encode_map py utf8 answer ≡ ok body
        → encode_smp (expected_op op) group_relay command 1 body ≡ ok response
        → serial_frame base64 response ≡ ok line
        → IsKeyed (obj answer)
        → AllNoise before
        → port.answer frames frame ≡ ok (before ++ line ∷ after)
        → call py utf8 base64 port command op payload frames ≡ (ok answer, frame ∷ frames)
    unfolding call write_frame
    call_answered laws faithful command op payload answer frames before after encoded request frame
          body response line e1 e2 e3 e4 e5 e6 keyed noise e7 =
        rw
          (
            e1,
            e2,
            e3,
            e7,
            decoded_frames-serial_frame base64 laws "timed out waiting for SMP response" response
                line before after e6 noise,
            check_response-Heads (expected_op op) command response body
                (encode_smp-Heads op command body response e5),
            decode_map-encode_map py utf8 faithful answer body keyed e4,
          )
          refl
