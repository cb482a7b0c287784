-- ===== src/Runner/Proc.antt =====
-- The driver thread of runner/src/proc.rs, between the channels of a `ClientProc` and the standard
-- input and output of its client. The calls are those that will come before the sender is dropped.
-- Whatever the client reads and writes in between, its output is the text that `stdout` has to give.
use my_mad_kv.Prelude.{
  ◌⊎◌, inl, inr, Bool, true, false, not, ◌&&◌, Option, none, some, List, [], ◌∷◌, ◌++◌,
  if◌then◌else◌,
}
use my_mad_kv.Text.{Text, codes}
use my_mad_kv.Runner.Error.{
  RunnerError, io, chan, recv_error, recv_timeout_error, io_error, send_error, from, Result, ok,
  err, out_of_fuel, ◌>>=◌,
}
use my_mad_kv.Runner.Ioapi.{KvCall, stop, into_write, KvResp, stop_resp}
use my_mad_kv.Runner.Ioapi.Reader.{Reader, from_read}

-- What the thread has: the calls to come, what it has written to the client, what the client
-- still writes, the responses sent, whether their receiver lives, and the flag `stopped`.
pub record Driver : Type 0 where
  pub calls : List KvCall
  pub stdin : Text
  pub stdout : Reader
  pub resps : List KvResp
  pub receiver : Bool
  pub stopped : Bool

abbrev pub is_stop_call : KvCall → Bool
is_stop_call stop = true
is_stop_call _ = false

-- How an iteration ends: with `Ok(())`, with an error, or not at all.
pub data Iterated : Type 0 where
  went_on : Driver → Iterated
  failed : RunnerError → Driver → Iterated
  endless : Iterated

-- the rest of an iteration, behind the response
unfoldable pub send_resp : Driver → Result RunnerError (KvResp × Reader) → Iterated
send_resp d (ok (resp, stdout')) =
    if d.receiver
    then went_on (record d { stdout = stdout'; resps = d.resps ++ resp ∷ [] })
    else failed (from (send_error (codes "sending on a closed channel")))
        (record d { stdout = stdout' })
send_resp d (err e) = failed e d
send_resp d out_of_fuel = endless

unfoldable pub driver_iter : List KvCall → Driver → Iterated
unfolding send_resp
driver_iter [] d = failed (from (recv_error (codes "receiving on a closed channel"))) d
driver_iter (call ∷ calls) d =
    send_resp
      (record d {
        calls = calls;
        stdin = d.stdin ++ into_write call;
        stopped = if is_stop_call call then true else d.stopped;
      })
      (from_read d.stdout)

abbrev pub is_chan : RunnerError → Bool
is_chan (chan msg) = true
is_chan _ = false

-- How the thread ends: with an error that it reports or not, or not at all.
pub data Ended : Type 0 where
  quietly : Driver → Ended
  reported : RunnerError → Driver → Ended
  spinning : Ended

-- the end of the loop by an error
unfoldable pub end_loop : RunnerError → Driver → Ended
end_loop e d = if not d.stopped && not (is_chan e) then reported e d else quietly d

-- The loop of `driver_thread`; an iteration that goes on has received a call.
unfoldable pub driver_loop : List KvCall → Driver → Ended
unfolding driver_iter end_loop
driver_loop [] d = elim (driver_iter [] d) [
  | went_on d' ↦ spinning
  | failed e d' ↦ end_loop e d'
  | endless ↦ spinning
]
driver_loop (call ∷ calls) d = elim (driver_iter (call ∷ calls) d) [
  | went_on d' ↦ driver_loop calls d'
  | failed e d' ↦ end_loop e d'
  | endless ↦ spinning
]

unfoldable pub driver_thread : List KvCall → Reader → Ended
unfolding driver_loop
driver_thread calls stdout = driver_loop calls (record {
  calls = calls;
  stdin = [];
  stdout = stdout;
  resps = [];
  receiver = true;
  stopped = false;
})

-- What a `ClientProc` has of its channels and its process: the calls sent, whether the thread
-- still receives, the responses that come in time and the message of the error after the last,
-- and the error with which the process cannot be killed.
pub record ClientProc : Type 0 where
  pub sent : List KvCall
  pub driver_runs : Bool
  pub coming : List KvResp
  pub timeout_msg : Text
  pub kill_failure : Option Text

unfoldable pub send_call : KvCall → ClientProc → Result RunnerError ClientProc
send_call call p =
    if p.driver_runs
    then ok (record p { sent = p.sent ++ call ∷ [] })
    else err (from (send_error (codes "sending on a closed channel")))

unfoldable pub wait_resp : ClientProc → Result RunnerError (KvResp × ClientProc)
wait_resp p = elim p.coming [
  | [] ↦ err (from (recv_timeout_error p.timeout_msg))
  | resp ∷ coming ↦ ok (resp, record p { coming = coming })
]

-- the end of `stop`, behind its response
unfoldable pub kill_after : KvResp → ClientProc → Result RunnerError ClientProc
kill_after stop_resp p = elim p.kill_failure [ none ↦ ok p | some msg ↦ err (from (io_error msg)) ]
kill_after _ p = err (io (codes "unexpected response, expecting STOP"))

unfoldable pub stop_proc : ClientProc → Result RunnerError ClientProc
unfolding send_call wait_resp kill_after
stop_proc p = send_call stop p >>= λ p1. wait_resp p1 >>= λ (resp, p2). kill_after resp p2

-- the status with which a process exits, and its `Display`
pub record ExitStatus : Type 0 where
  pub success : Bool
  pub shown : Text

-- What a `ServerProc` has of its process: the status with which it will exit, or the message of
-- the error of waiting for it, and the error with which it cannot be killed.
pub record ServerProc : Type 0 where
  pub exit : Text ⊎ ExitStatus
  pub cannot_kill : Option Text

-- `wait`, with nothing where it returns `Ok(())`
unfoldable pub wait_server : ServerProc → Option RunnerError
wait_server p = elim p.exit [
  | inl msg ↦ some (from (io_error msg))
  | inr status ↦
      if status.success
      then none
      else some (io (codes "server exited with status: " ++ status.shown))
]

-- `stop`, with nothing where it returns `Ok(())`
unfoldable pub stop_server : ServerProc → Option RunnerError
stop_server p = elim p.cannot_kill [ none ↦ none | some msg ↦ some (from (io_error msg)) ]
