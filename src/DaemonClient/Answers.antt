-- ===== src/DaemonClient/Answers.antt =====
-- What the daemon answers is what its client reads, and what the client asks is what the daemon
-- is asked.
use rp2350_relay_6ch.Prelude.{ℕ, ◌≡◌, arith}
use rp2350_relay_6ch.Prelude.Int.{pos}
use rp2350_relay_6ch.Errors.{Exc, ok, err, relay, transport, device, foreign}
use rp2350_relay_6ch.Value.{Python, Fields, int}
use rp2350_relay_6ch.Requests.{response_ok, error_response_for_exception}
use rp2350_relay_6ch.DaemonClient.{device_error, read_response}

-- The exception that reaches the caller: the daemon's own classes come through as they are, and
-- any other error of the daemon is a transport error with its message.
unfoldable pub seen_by_client : Python → Exc → Exc
seen_by_client py (relay m) = transport m
seen_by_client py (foreign m) = transport m
seen_by_client py (device group rc m) = device_error py group rc m
seen_by_client py e = e

-- A success response is read as its result.
pub read_response-response_ok :
    (py : Python) (n : ℕ) (result : Fields)
    → read_response py n (response_ok (int (pos n)) result) ≡ ok result
unfolding read_response response_ok
read_response-response_ok py n result = ground arith

-- An error response is read as the exception that it was made of, with its group and code for a
-- device error; an error outside the client's classes is read as a transport error with its message.
pub read_response-error_response :
    (py : Python) (n : ℕ) (e : Exc)
    → read_response py n (error_response_for_exception (int (pos n)) e) ≡ err (seen_by_client py e)
unfolding read_response error_response_for_exception seen_by_client
read_response-error_response py n (relay m) = ground arith
read_response-error_response py n e = ground arith
