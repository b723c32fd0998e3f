-- ===== src/Daemon/Lines.antt =====
-- The socket side of RelayDaemon (daemon.py): the bytes that a client of the daemon sends are cut
-- into lines, and a line is parsed into a request that is queued, or answered with an error.
pub mod Chunks
use rp2350_relay_6ch.Prelude.{
  ℕ, zero, suc, String, Bytes, Bool, true, false, Option, none, some, List, [], ◌∷◌, ◌++◌, length,
  ltb, ◌==◌, if◌then◌else◌,
}
use rp2350_relay_6ch.Errors.{Exc, Result, ok, err, validation, protocol}
use rp2350_relay_6ch.Value.{Value, null, end}
use rp2350_relay_6ch.Value.{Python}
use rp2350_relay_6ch.Requests.{
  Json, Request, response_error, error_response_for_exception, parse_request_line,
  request_id_from_line,
}

abbrev pub max_frame_bytes : ℕ
max_frame_bytes = 4096

-- What a reader does: a line goes to the parser with its order, a response goes to the client, and
-- the connection is closed.
pub data Output : Type 0 where
  pending : Bytes → ℕ → Output
  sent : Value → Output
  closed : Output

-- The connection of one client, with the daemon's `_order`; `outputs` has the newest first.
pub record Reader : Type 0 where
  pub buffer : Bytes
  pub order : ℕ
  pub is_open : Bool
  pub outputs : List Output

-- what `conn.recv` did
pub data Received : Type 0 where
  failed : Received
  chunk : Bytes → Received

abbrev pub add_byte : ℕ → Option (Bytes × Bytes) → Option (Bytes × Bytes)
add_byte b none = none
add_byte b (some (raw, remainder)) = some (b ∷ raw, remainder)

-- `buffer.partition(b"\n")`, none where there is no newline
unfoldable pub partition : Bytes → Option (Bytes × Bytes)
partition [] = none
partition (b ∷ l) = if b == 10 then some ([], l) else add_byte b (partition l)

abbrev pub too_long : Value
too_long = response_error null "protocol" "request line exceeds 4096 bytes" end

-- what becomes of a line that was cut off the buffer
unfoldable pub take_line : Bytes → Reader → Reader
take_line raw r = record r {
  order = suc r.order;
  outputs =
      (if ltb max_frame_bytes (length raw) then sent too_long else pending raw (suc r.order))
      ∷ r.outputs;
}

-- a turn of the `while` loop of `_read_client`, with the turns after it
unfoldable pub after_partition : Option (Bytes × Bytes) → Reader → (Reader → Reader) → Reader
unfolding take_line
after_partition none r again = r
after_partition (some (raw, remainder)) r again =
    again (take_line raw (record r { buffer = remainder }))

-- the loop, with the turns that are left
unfoldable pub read_lines : ℕ → Reader → Reader
unfolding partition after_partition
read_lines zero r = r
read_lines (suc n) r = after_partition (partition r.buffer) r (λ r'. read_lines n r')

-- RelayDaemon._close_client
abbrev pub close_client : Reader → Reader
close_client r = record r { is_open = false; outputs = closed ∷ r.outputs }

-- the test after the loop: what is left may still be the start of a line
unfoldable pub check_rest : Reader → Reader
check_rest r =
    if ltb max_frame_bytes (length r.buffer)
    then close_client (record r { outputs = sent too_long ∷ r.outputs })
    else r

-- RelayDaemon._read_client, from the end of `recv`: a turn of the loop takes at least one byte
unfoldable pub read_chunk : Bytes → Reader → Reader
unfolding read_lines check_rest
read_chunk bytes r =
    let buffer = r.buffer ++ bytes in
    check_rest (read_lines (length buffer) (record r { buffer = buffer }))

unfoldable pub read_client : Received → Reader → Reader
unfolding read_chunk
read_client failed r = close_client r
read_client (chunk []) r = close_client r
read_client (chunk (b ∷ l)) r = read_chunk (b ∷ l) r

-- What the parser thread does with a line: a request is queued, or a response is sent.
pub data Parsed : Type 0 where
  queued : Request → Parsed
  answered : Value → Parsed
  -- any other exception ends the thread
  dead : Exc → Parsed

parsed : Json → Bytes → Result Request → Parsed
unfolding request_id_from_line error_response_for_exception
parsed json line (ok request) = queued request
parsed json line (err (validation m)) =
    answered (error_response_for_exception (request_id_from_line json line) (validation m))
parsed json line (err (protocol m)) = answered (error_response_for_exception null (protocol m))
parsed json line (err e) = dead e

-- one turn of RelayDaemon._parser_loop
unfoldable pub parser_step : Python → Json → Bytes → ℕ → Parsed
unfolding parsed parse_request_line
parser_step py json line order = parsed json line (parse_request_line py json line order)
